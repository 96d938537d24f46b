-- ===== src/SourceControl/Arrival.antt =====
-- The diffs of the panel, whatever the order in which the promises of the diffs settle.
use mathlib.Core.List.{Permᴰ}
use mathlib.Core.List.Permᴰ
use mobile_agent.Prelude.{
  ℕ, Text, Bool, not, Option, none, some, List, [], ◌∷◌, ◌≡◌, refl, sym, All,
}
use mobile_agent.Prelude.Sort.{IsOrder}
use mobile_agent.Prelude.Arrivals.{IsTold, sort-arrivals}
use mobile_agent.SourceControl.{GitStatusEntry, FileDiff}
use mobile_agent.SourceControl.Polling.{
  DiffReply, contents, no_diff, rejected, all_entries, file_diff, push_some, path_before, pushed,
  load_diffs,
}

abbrev pub entry_before : (Text → Text → Bool) → GitStatusEntry → GitStatusEntry → Bool
entry_before before a b = before a.path b.path

path-IsOrder : (before : Text → Text → Bool) → IsOrder before → IsOrder (path_before before)
path-IsOrder before o = record {
  asym = λ a b. o.asym a.path b.path;
  trans = λ a b c. o.trans a.path b.path c.path;
}

push_some-perm :
    (o : Option FileDiff) {xs ys : List FileDiff}
    → Permᴰ xs ys
    → Permᴰ (push_some o xs) (push_some o ys)
unfolding push_some
push_some-perm none p = p
push_some-perm (some d) p = Permᴰ.cons refl p

push_some-swap :
    (o q : Option FileDiff) (xs : List FileDiff)
    → Permᴰ (push_some o (push_some q xs)) (push_some q (push_some o xs))
unfolding push_some
push_some-swap none q xs = Permᴰ.refl _
push_some-swap (some d) none xs = Permᴰ.refl _
push_some-swap (some d) (some e) xs = Permᴰ.swap refl refl

reply-All :
    (count_changes : Text → Text → Text → ℕ × ℕ) (P : Text → Type 0) (e : GitStatusEntry)
    (reply : DiffReply) (xs : List FileDiff)
    → P e.path
    → All (λ d. P d.path) xs
    → All (λ d. P d.path) (push_some (file_diff count_changes e reply) xs)
unfolding file_diff push_some
reply-All count_changes P e (contents original modified) xs h hs = (h, hs)
reply-All count_changes P e no_diff xs h hs = hs
reply-All count_changes P e rejected xs h hs = hs

reply-IsTold :
    (count_changes : Text → Text → Text → ℕ × ℕ) (before : Text → Text → Bool) (e : GitStatusEntry)
    (reply : DiffReply) (xs : List FileDiff)
    → All (λ d. before e.path d.path ≡ not (before d.path e.path)) xs
    → IsTold (path_before before) xs
    → IsTold (path_before before) (push_some (file_diff count_changes e reply) xs)
unfolding file_diff push_some
reply-IsTold count_changes before e (contents original modified) xs h hs = (h, hs)
reply-IsTold count_changes before e no_diff xs h hs = hs
reply-IsTold count_changes before e rejected xs h hs = hs

module _ (count_changes : Text → Text → Text → ℕ × ℕ) (diff_file : GitStatusEntry → DiffReply) where
  pushed-perm :
      {xs ys : List GitStatusEntry}
      → Permᴰ xs ys
      → Permᴰ (pushed count_changes diff_file xs) (pushed count_changes diff_file ys)
  unfolding pushed
  pushed-perm Permᴰ.nil = Permᴰ.nil
  pushed-perm (Permᴰ.cons e p) = rw e (push_some-perm _ (pushed-perm p))
  pushed-perm (Permᴰ.swap {a' = a} {b' = b} {l = l} e d) =
      rw (e, d)
        (push_some-swap (file_diff count_changes b (diff_file b))
          (file_diff count_changes a (diff_file a)) (pushed count_changes diff_file l))
  pushed-perm (Permᴰ.trans p q) = Permᴰ.trans (pushed-perm p) (pushed-perm q)

  pushed-All :
      (P : Text → Type 0) (xs : List GitStatusEntry)
      → All (λ e. P e.path) xs
      → All (λ d. P d.path) (pushed count_changes diff_file xs)
  unfolding pushed
  pushed-All P [] h = tt
  pushed-All P (e ∷ xs) (h, hs) = reply-All count_changes P e (diff_file e) _ h (pushed-All P xs hs)

  pushed-IsTold :
      (before : Text → Text → Bool) (xs : List GitStatusEntry)
      → IsTold (entry_before before) xs
      → IsTold (path_before before) (pushed count_changes diff_file xs)
  unfolding pushed
  pushed-IsTold before [] h = tt
  pushed-IsTold before (e ∷ xs) (h, hs) =
      reply-IsTold count_changes before e (diff_file e) _
        (pushed-All (λ p. before e.path p ≡ not (before p e.path)) xs h)
        (pushed-IsTold before xs hs)

  -- Where `localeCompare` orders the paths, and tells apart the paths of every two entries of the status
  -- that are no conflicts, the panel gets the same diffs in the same order whatever the order in
  -- which the promises of their diffs settle, whichever of them are `null` or reject.
  pub load_diffs-arrivals :
      (before : Text → Text → Bool) (status_entries arrived : List GitStatusEntry)
      → IsOrder before
      → IsTold (entry_before before) (all_entries status_entries)
      → Permᴰ (all_entries status_entries) arrived
      → load_diffs count_changes diff_file before arrived
        ≡ load_diffs count_changes diff_file before (all_entries status_entries)
  unfolding load_diffs
  load_diffs-arrivals before status_entries arrived o h p = sym (
      sort-arrivals (path_before before) (path-IsOrder before o) _ _ (pushed-perm p)
        (pushed-IsTold before (all_entries status_entries) h))
