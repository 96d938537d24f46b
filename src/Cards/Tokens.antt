-- ===== src/Cards/Tokens.antt =====
-- Drawing a text of Slack loses nothing of it.
use mobile_agent.Prelude.{
  ℕ, zero, suc, ◌==◌, Text, true, false, Option, none, some, [], ◌∷◌, ◌++◌, length, is_nil, drop,
  flat_map, flat_map-append, append-nil, append_assoc, Bool-cases, inl, inr, arith, ◌≡◌, refl, ◌∙◌,
  ap, sym,
}
use mathlib.Core.Path.{subst}
use mobile_agent.Prelude.Strings.{span_until}
use mobile_agent.Cards.Slack.{
  Part, plain, token, flush, match_token, match_at, skip_of, buffer_of, parts_of, closed, scan,
  slack_parts,
}

-- the text that a part stands for
abbrev pub source : Part → Text
source (plain t) = t
source (token t) = b'<' ∷ t ++ b'>' ∷ []

flush-source : (buffer : Text) → flat_map source (flush buffer) ≡ buffer
flush-source [] = refl
flush-source (c ∷ s) = append-nil (c ∷ s)

span-source :
    (s : Text)
    → is_nil (span_until b'>' s).1 ≡ false
    → (span_until b'>' s).0 ++ b'>' ∷ drop (suc (length (span_until b'>' s).0)) s ≡ s
unfolding span_until
span-source [] e = absurd (ground arith)
span-source (c ∷ s) e = elim (Bool-cases (c == b'>')) [
  | inl f ↦ rw f (ap (λ d. d ∷ s) (sym (eq_of c b'>' f)))
  | inr f ↦ rw f (ap (λ t. c ∷ t) (span-source s (later f)))
]
  where
    eq_of : (a b : ℕ) → (a == b) ≡ true → a ≡ b
    eq_of a b f = ground arith

    later : (c == b'>') ≡ false → is_nil (span_until b'>' s).1 ≡ false
    later f = ground arith

injective : (u v : Text) → some u ≡ some v → u ≡ v
injective u v f = ground arith

-- the token is followed by its `>`
match_token-source : (s t : Text) → match_token s ≡ some t → t ++ b'>' ∷ drop (suc (length t)) s ≡ s
unfolding match_token
match_token-source s t e = go (span_until b'>' s).0 (span_until b'>' s).1 e (span-source s)
  where
    go :
        (word rest : Text)
        → closed word rest ≡ some t
        → (is_nil rest ≡ false → word ++ b'>' ∷ drop (suc (length word)) s ≡ s)
        → t ++ b'>' ∷ drop (suc (length t)) s ≡ s
    go [] rest f h = absurd (ground arith)
    go (c ∷ word) [] f h = absurd (ground arith)
    go (c ∷ word) (d ∷ rest) f h =
        subst (λ (u : Text). u ++ b'>' ∷ drop (suc (length u)) s ≡ s) (injective (c ∷ word) t f)
          (h refl)

matched : (c : ℕ) (s t : Text) → match_at c s ≡ some t → (c ≡ b'<') × (match_token s ≡ some t)
unfolding match_at
matched c s t e = elim (Bool-cases (c == b'<')) [
  | inl f ↦ (eq_of c b'<' f, found f)
  | inr f ↦ absurd (ground arith)
]
  where
    eq_of : (a b : ℕ) → (a == b) ≡ true → a ≡ b
    eq_of a b f = ground arith

    found : (c == b'<') ≡ true → match_token s ≡ some t
    found f = ground arith

found-source :
    (c : ℕ) (s buffer : Text) (found : Option Text)
    → match_at c s ≡ found
    → flat_map source (parts_of buffer found)
        ++ (buffer_of buffer c found ++ drop (skip_of found) s)
      ≡ buffer ++ c ∷ s
found-source c s buffer none e = append_assoc buffer (c ∷ []) s
found-source c s buffer (some t) e =
    let (f, g) = matched c s t e in
    ap (λ u. u ++ drop (suc (length t)) s)
      (flat_map-append source (flush buffer) (token t ∷ [])
        ∙ ap (λ u. u ++ flat_map source (token t ∷ [])) (flush-source buffer))
    ∙ shape
    ∙ ap (λ u. buffer ++ b'<' ∷ u) (match_token-source s t g)
    ∙ ap (λ d. buffer ++ d ∷ s) (sym f)
  where
    shape :
        (buffer ++ flat_map source (token t ∷ [])) ++ drop (suc (length t)) s
        ≡ buffer ++ b'<' ∷ (t ++ b'>' ∷ drop (suc (length t)) s)
    shape = simp (append-nil, append_assoc)

scan-source :
    (skip : ℕ) (buffer s : Text) → flat_map source (scan skip buffer s) ≡ buffer ++ drop skip s
unfolding scan
scan-source zero buffer [] = flush-source buffer ∙ sym (append-nil buffer)
scan-source (suc skip) buffer [] = flush-source buffer ∙ sym (append-nil buffer)
scan-source (suc skip) buffer (c ∷ s) = scan-source skip buffer s
scan-source zero buffer (c ∷ s) =
    flat_map-append source (parts_of buffer (match_at c s)) _
    ∙ rw (scan-source (skip_of (match_at c s)) (buffer_of buffer c (match_at c s)) s)
        (found-source c s buffer (match_at c s) refl)

-- The parts that a text of Slack is drawn from are the text: put together again, a token between its
-- brackets, they give the text, whatever brackets it has.
pub slack_parts-source : (text : Text) → flat_map source (slack_parts text) ≡ text
unfolding slack_parts
slack_parts-source text = scan-source 0 [] text
