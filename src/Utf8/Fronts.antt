-- ===== src/Utf8/Fronts.antt =====
-- The character at the front of the input, and what more input does to it.
use tungstenite_rs.Prelude.{
  ℕ, zero, suc, ◌≤◌, ◌≡◌, refl, length-take, ◌∙◌, ap, ◌⊎◌, inl, inr, List, [], ◌∷◌, ◌++◌, arith,
  length, take,
}
use tungstenite_rs.Utf8.{Front, end, char, bad, short, front}

-- A character has one to four bytes, and all of them are there.
pub front-char-le : (bs : List ℕ) (w : ℕ) → front bs ≡ char w → (1 ≤ w) × (w ≤ 4) × (w ≤ length bs)
unfolding front
front-char-le [] w h = cc
front-char-le (a ∷ []) w h = ground arith
front-char-le (a ∷ b ∷ []) w h = ground arith
front-char-le (a ∷ b ∷ c ∷ []) w h = ground arith
front-char-le (a ∷ b ∷ c ∷ d ∷ bs) w h = ground arith

pub front-bad-le : (bs : List ℕ) (w : ℕ) → front bs ≡ bad w → (1 ≤ w) × (w ≤ 3) × (w ≤ length bs)
unfolding front
front-bad-le [] w h = cc
front-bad-le (a ∷ []) w h = ground arith
front-bad-le (a ∷ b ∷ []) w h = ground arith
front-bad-le (a ∷ b ∷ c ∷ []) w h = ground arith
front-bad-le (a ∷ b ∷ c ∷ d ∷ bs) w h = ground arith

pub front-short-le : (bs : List ℕ) → front bs ≡ short → (1 ≤ length bs) × (length bs ≤ 3)
unfolding front
front-short-le [] h = cc
front-short-le (a ∷ []) h = ground arith
front-short-le (a ∷ b ∷ []) h = ground arith
front-short-le (a ∷ b ∷ c ∷ []) h = ground arith
front-short-le (a ∷ b ∷ c ∷ d ∷ bs) h = ground arith

-- More input does not change a character or an error that is already there.
pub front-append_char : (bs more : List ℕ) (w : ℕ) → front bs ≡ char w → front (bs ++ more) ≡ char w
unfolding front
front-append_char [] more w h = cc
front-append_char (a ∷ []) more w h = ground arith
front-append_char (a ∷ b ∷ []) more w h = ground arith
front-append_char (a ∷ b ∷ c ∷ []) more w h = ground arith
front-append_char (a ∷ b ∷ c ∷ d ∷ bs) more w h = h

pub front-append_bad : (bs more : List ℕ) (w : ℕ) → front bs ≡ bad w → front (bs ++ more) ≡ bad w
unfolding front
front-append_bad [] more w h = cc
front-append_bad (a ∷ []) more w h = ground arith
front-append_bad (a ∷ b ∷ []) more w h = ground arith
front-append_bad (a ∷ b ∷ c ∷ []) more w h = ground arith
front-append_bad (a ∷ b ∷ c ∷ d ∷ bs) more w h = h

pub front-end : (bs : List ℕ) → front bs ≡ end → bs ≡ []
unfolding front
front-end [] h = refl
front-end (a ∷ []) h = ground arith
front-end (a ∷ b ∷ []) h = ground arith
front-end (a ∷ b ∷ c ∷ []) h = ground arith
front-end (a ∷ b ∷ c ∷ d ∷ bs) h = ground arith

pub front-cases :
    (bs : List ℕ)
    → (bs ≡ [])
      ⊎ (((w : ℕ) × (front bs ≡ char w)) ⊎ (((n : ℕ) × (front bs ≡ bad n)) ⊎ (front bs ≡ short)))
front-cases bs = by_front (front bs) refl
  where
    by_front :
        (r : Front)
        → front bs ≡ r
        → (bs ≡ [])
          ⊎ (((w : ℕ) × (front bs ≡ char w))
              ⊎ (((n : ℕ) × (front bs ≡ bad n)) ⊎ (front bs ≡ short)))
    by_front end e = inl (front-end bs e)
    by_front (char w) e = inr (inl (w, e))
    by_front (bad n) e = inr (inr (inl (n, e)))
    by_front short e = inr (inr (inr e))

pub front-take_char : (bs : List ℕ) (w : ℕ) → front bs ≡ char w → front (take w bs) ≡ char w
unfolding front
front-take_char [] w h = cc
front-take_char (a ∷ []) (suc zero) h = h
front-take_char (a ∷ b ∷ []) (suc zero) h = ground arith
front-take_char (a ∷ b ∷ []) (suc (suc zero)) h = h
front-take_char (a ∷ b ∷ c ∷ []) (suc zero) h = ground arith
front-take_char (a ∷ b ∷ c ∷ []) (suc (suc zero)) h = ground arith
front-take_char (a ∷ b ∷ c ∷ []) (suc (suc (suc zero))) h = h
front-take_char (a ∷ b ∷ c ∷ d ∷ bs) (suc zero) h = ground arith
front-take_char (a ∷ b ∷ c ∷ d ∷ bs) (suc (suc zero)) h = ground arith
front-take_char (a ∷ b ∷ c ∷ d ∷ bs) (suc (suc (suc zero))) h = ground arith
front-take_char (a ∷ b ∷ c ∷ d ∷ bs) (suc (suc (suc (suc zero)))) h = h
front-take_char bs w h = absurd (ground arith)

-- The character at the front, split off.
pub front-take :
    (bs : List ℕ) (w : ℕ) → front bs ≡ char w → front (take w bs) ≡ char (length (take w bs))
front-take bs w e =
    let fits = front-char-le bs w e in
    front-take_char bs w e ∙ ap char (omega (arith, length-take w bs))
