-- ===== src/Utf8/Scan.antt =====
-- Validation of UTF-8, piece by piece: what an extension of the input does to the verdict.
use tungstenite_rs.Prelude.{
  ℕ, zero, suc, ◌+◌, ◌<◌, ◌≡◌, refl, ◌≢◌, append-nil, sym, subst, length-append, ◌∙◌, ap, inl, inr,
  Option, none, some, List, [], ◌++◌, append_assoc, drop-length_append, arith, length, take, drop,
  take-append-drop, length-drop,
}
use tungstenite_rs.Utf8.{Utf8Error, Front, end, char, bad, short, front, validate, from_utf8}
use tungstenite_rs.Utf8.Fronts.{
  front-char-le, front-append_char, front-append_bad, front-cases, front-take,
}

-- A list of whole characters.
pub data Chars : List ℕ → Type 0 where
  nothing : Chars []
  one_more :
      (c rest : List ℕ) {bs : List ℕ}
      → front c ≡ char (length c)
      → Chars rest
      → bs ≡ c ++ rest
      → Chars bs

pub Chars-append : {xs : List ℕ} (ys : List ℕ) → Chars xs → Chars ys → Chars (xs ++ ys)
Chars-append ys nothing k = k
Chars-append ys (one_more c rest e h p) k =
    one_more c (rest ++ ys) e (Chars-append ys h k) (ap (λ t. t ++ ys) p ∙ append_assoc c rest ys)

-- One round of the loop.
pub validate-char :
    (f p : ℕ) (c rest : List ℕ)
    → front c ≡ char (length c)
    → validate (suc f) p (c ++ rest) ≡ validate f (p + length c) rest
unfolding validate
validate-char f p c rest e =
    rw (front-append_char c rest (length c) e, validate, drop-length_append c rest) refl

-- What validation finds: whole characters, then the end, an error, or a character cut short.
pub data Verdict (p : ℕ) (bs : List ℕ) (r : Option Utf8Error) : Type 0 where
  whole : Chars bs → r ≡ none → Verdict p bs r
  broken :
      (xs ys : List ℕ) (n : ℕ)
      → bs ≡ xs ++ ys
      → Chars xs
      → front ys ≡ bad n
      → r ≡ some (record { valid_up_to = p + length xs; error_len = some n })
      → Verdict p bs r
  partial :
      (xs ys : List ℕ)
      → bs ≡ xs ++ ys
      → Chars xs
      → front ys ≡ short
      → r ≡ some (record { valid_up_to = p + length xs; error_len = none })
      → Verdict p bs r

add_length : (p : ℕ) (c xs : List ℕ) → p + length c + length xs ≡ p + length (c ++ xs)
add_length p c xs = omega (arith, length-append c xs)

Verdict-char :
    (p : ℕ) (c rest bs : List ℕ) {r : Option Utf8Error}
    → front c ≡ char (length c)
    → bs ≡ c ++ rest
    → Verdict (p + length c) rest r
    → Verdict p bs r
Verdict-char p c rest bs e q (whole h k) = whole (one_more c rest e h q) k
Verdict-char p c rest bs e q (broken xs ys n d h b k) =
    broken (c ++ xs) ys n (q ∙ ap (λ t. c ++ t) d ∙ sym (append_assoc c xs ys))
      (one_more c xs e h refl) b
      (k ∙ ap (λ t. some (record { valid_up_to = t; error_len = some n })) (add_length p c xs))
Verdict-char p c rest bs e q (partial xs ys d h b k) =
    partial (c ++ xs) ys (q ∙ ap (λ t. c ++ t) d ∙ sym (append_assoc c xs ys))
      (one_more c xs e h refl) b
      (k ∙ ap (λ t. some (record { valid_up_to = t; error_len = none })) (add_length p c xs))

validate-Verdict : (f p : ℕ) (bs : List ℕ) → length bs < f → Verdict p bs (validate f p bs)
validate-Verdict zero p bs h = absurd (omega arith)
validate-Verdict (suc f) p bs h = elim (front-cases bs) [
  | inl e ↦ rw e (whole nothing (unfold validate front in refl))
  | inr (inl (w, e)) ↦
      let fits = front-char-le bs w e in
      Verdict-char p (take w bs) (drop w bs) bs (front-take bs w e) (sym (take-append-drop w bs)) (
        subst (λ r. Verdict (p + length (take w bs)) (drop w bs) r)
          (sym (validate-char f p (take w bs) (drop w bs) (front-take bs w e))
            ∙ ap (validate (suc f) p) (take-append-drop w bs))
          (validate-Verdict f (p + length (take w bs)) (drop w bs)
            (omega (arith, length-drop w bs))))
  | inr (inr (inl (n, e))) ↦ broken [] bs n refl nothing e (
      unfold validate in
      rw (e, validate)
        (ap (λ t. some (record { valid_up_to = t; error_len = some n })) (omega arith)))
  | inr (inr (inr e)) ↦ partial [] bs refl nothing e (
      unfold validate in
      rw (e, validate)
        (ap (λ t. some (record { valid_up_to = t; error_len = none })) (omega arith)))
]

pub from_utf8-Verdict : (bs : List ℕ) → Verdict 0 bs (from_utf8 bs)
from_utf8-Verdict bs = unfold from_utf8 in validate-Verdict (suc (length bs)) 0 bs (omega arith)

-- Validation goes through whole characters.
validate-skip :
    {xs : List ℕ} (f p : ℕ) (ys : List ℕ)
    → Chars xs
    → length (xs ++ ys) < f
    → (g : ℕ) × (length ys < g) × (validate f p (xs ++ ys) ≡ validate g (p + length xs) ys)
validate-skip f p ys nothing h = (f, h, ap (λ t. validate f t ys) (omega arith))
validate-skip zero p ys (one_more c rest e k q) h = absurd (omega arith)
validate-skip {xs} (suc f) p ys (one_more c rest e k q) h =
    let regroup : xs ++ ys ≡ c ++ (rest ++ ys) = ap (λ t. t ++ ys) q ∙ append_assoc c rest ys in
    let fits = front-char-le c (length c) e in
    let (g, enough, step) =
      validate-skip f (p + length c) ys k
        (omega (arith, ap length regroup, length-append c (rest ++ ys))) in
    (
      g,
      enough,
      ap (validate (suc f) p) regroup
          ∙ validate-char f p c (rest ++ ys) e
          ∙ step
          ∙ ap (λ t. validate g t ys) (add_length p c rest ∙ ap (λ t. p + length t) (sym q)),
    )

-- The verdict where no character stands at the front.
abbrev pub verdict_of : ℕ → Front → Option Utf8Error
verdict_of pos end = none
verdict_of pos (char w) = none
verdict_of pos (bad n) = some (record { valid_up_to = pos; error_len = some n })
verdict_of pos short = some (record { valid_up_to = pos; error_len = none })

validate-stop :
    (g p : ℕ) (ys : List ℕ) (r : Front)
    → length ys < g
    → front ys ≡ r
    → ((w : ℕ) → r ≢ char w)
    → validate g p ys ≡ verdict_of p r
unfolding validate
validate-stop zero p ys r l e k = absurd (omega arith)
validate-stop (suc g) p ys end l e k = rw (e, validate) refl
validate-stop (suc g) p ys (char w) l e k = absurd (k w refl)
validate-stop (suc g) p ys (bad n) l e k = rw (e, validate) refl
validate-stop (suc g) p ys short l e k = rw (e, validate) refl

-- Behind whole characters, the verdict is that on what stands at the front of the rest.
pub from_utf8-append :
    {xs : List ℕ} (ys : List ℕ) (r : Front)
    → Chars xs
    → front ys ≡ r
    → ((w : ℕ) → r ≢ char w)
    → from_utf8 (xs ++ ys) ≡ verdict_of (length xs) r
from_utf8-append {xs} ys r h e k =
    let (g, l, q) = skipped in
    q ∙ validate-stop g (0 + length xs) ys r l e k ∙ ap (λ p. verdict_of p r) (omega arith)
  where
    skipped : (g : ℕ) × (length ys < g) × (from_utf8 (xs ++ ys) ≡ validate g (0 + length xs) ys)
    skipped = unfold from_utf8 in validate-skip (suc (length (xs ++ ys))) 0 ys h (omega arith)

-- Whole characters are valid.
pub from_utf8-Chars : (xs : List ℕ) → Chars xs → from_utf8 xs ≡ none
from_utf8-Chars xs h =
    ap from_utf8 (sym (append-nil xs)) ∙ from_utf8-append [] end h (unfold front in refl) (λ w. cc)

-- What is valid is whole characters.
pub Chars-of_valid : (xs : List ℕ) → from_utf8 xs ≡ none → Chars xs
Chars-of_valid xs h = by_verdict (from_utf8-Verdict xs)
  where
    by_verdict : Verdict 0 xs (from_utf8 xs) → Chars xs
    by_verdict (whole k e) = k
    by_verdict (broken ys zs n d k b e) = absurd (cc)
    by_verdict (partial ys zs d k b e) = absurd (cc)

-- An error that is no beginning of a character stays, whatever follows.
pub from_utf8-append_bad :
    (bs more : List ℕ) (v n : ℕ)
    → from_utf8 bs ≡ some (record { valid_up_to = v; error_len = some n })
    → (w : ℕ) × (from_utf8 (bs ++ more) ≡ some (record { valid_up_to = w; error_len = some n }))
from_utf8-append_bad bs more v n e = by_verdict (from_utf8-Verdict bs)
  where
    by_verdict :
        Verdict 0 bs (from_utf8 bs)
        → (w : ℕ) × (from_utf8 (bs ++ more) ≡ some (record { valid_up_to = w; error_len = some n }))
    by_verdict (whole k q) = absurd (cc)
    by_verdict (partial xs ys d k b q) = absurd (cc)
    by_verdict (broken xs ys n' d k b q) =
        let same : n' ≡ n = ground arith in
        (
          length xs,
          ap from_utf8 (ap (λ t. t ++ more) d ∙ append_assoc xs ys more)
              ∙ from_utf8-append (ys ++ more) (bad n) k
                  (front-append_bad ys more n (b ∙ ap bad same)) (λ w. cc),
        )
