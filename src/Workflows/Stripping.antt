-- ===== src/Workflows/Stripping.antt =====
-- White space at the ends of a text: a text that was stripped stays as it is when it is stripped again
-- (`str.strip`, as backend/app/services/workflows.py and backend/app/services/birthright.py use it).
use mathlib.Core.List.{reverse, reverse-append, reverse-cons, reverse-reverse}
use access_piliot.Prelude.{
  ℕ, ◌≡◌, refl, ap, ◌∙◌, Bool, true, false, [], ◌∷◌, ◌++◌, if◌then◌else◌, map, arith,
}
use access_piliot.Store.{Text}
use access_piliot.Workflows.Conditions.{drop_spaces, is_space, strip, normalise}

-- A text that does not begin with white space.
starts_clean : Text → Bool
starts_clean [] = true
starts_clean (c ∷ cs) = if is_space c then false else true

starts_clean-drop_spaces : (t : Text) → starts_clean (drop_spaces t) ≡ true
unfolding starts_clean
starts_clean-drop_spaces [] = refl
starts_clean-drop_spaces (c ∷ cs) = ground (arith, starts_clean-drop_spaces cs)

drop_spaces-clean : (t : Text) → starts_clean t ≡ true → drop_spaces t ≡ t
unfolding starts_clean
drop_spaces-clean [] h = refl
drop_spaces-clean (c ∷ cs) h = ground arith

-- White space is dropped from the front only: what is not white space at the end stays.
drop_spaces-snoc :
    (t : Text) (c : ℕ) → is_space c ≡ false → drop_spaces (t ++ c ∷ []) ≡ drop_spaces t ++ c ∷ []
drop_spaces-snoc [] c h = ground arith
drop_spaces-snoc (d ∷ ds) c h = ground (arith, drop_spaces-snoc ds c h)

clean-head : (c : ℕ) (cs : Text) → starts_clean (c ∷ cs) ≡ true → is_space c ≡ false
unfolding starts_clean
clean-head c cs h = ground arith

-- The end of a text is stripped, and its beginning stays.
strip_end-cons :
    (c : ℕ) (cs : Text)
    → is_space c ≡ false
    → reverse (drop_spaces (reverse (c ∷ cs))) ≡ c ∷ reverse (drop_spaces (reverse cs))
strip_end-cons c cs h =
    ap (λ t. reverse (drop_spaces t)) (reverse-cons c cs)
    ∙ ap reverse (drop_spaces-snoc (reverse cs) c h)
    ∙ reverse-append (drop_spaces (reverse cs)) (c ∷ [])

starts_clean-strip_end :
    (t : Text) → starts_clean t ≡ true → starts_clean (reverse (drop_spaces (reverse t))) ≡ true
unfolding starts_clean
starts_clean-strip_end [] h = refl
starts_clean-strip_end (c ∷ cs) h =
    let solid = clean-head c cs h in
    ap starts_clean (strip_end-cons c cs solid) ∙ ap (λ b. if b then false else true) solid

pub strip-strip : (t : Text) → strip (strip t) ≡ strip t
unfolding strip
strip-strip t =
    let inner = drop_spaces (reverse (drop_spaces t)) in
    ap (λ u. reverse (drop_spaces (reverse u)))
      (drop_spaces-clean (reverse inner)
        (starts_clean-strip_end (drop_spaces t) (starts_clean-drop_spaces t)))
    ∙ ap (λ u. reverse (drop_spaces u)) (reverse-reverse inner)
    ∙ ap reverse (drop_spaces-clean inner (starts_clean-drop_spaces (reverse (drop_spaces t))))

pub normalise-strip : (t : Text) → normalise (strip t) ≡ normalise t
unfolding normalise
normalise-strip t = ap (map _) (strip-strip t)
