-- ===== src/Deflate/Split.antt =====
-- Splitting a header value at unquoted delimiters loses nothing (`split_header` of
-- src/protocol/deflate/negotiate.rs).
use tungstenite_rs.Prelude.{
  ℕ, ◌≡◌, refl, sym, ◌∙◌, ap, subst, ◌⊎◌, Bool, false, not, ◌&&◌, Option, none, some, List, [], ◌∷◌,
  ◌++◌, append_assoc, append-nil, inl, inr, ◌==◌, if◌then◌else◌, arith,
}
use tungstenite_rs.Result.{ok}
use tungstenite_rs.Deflate.Text.{
  Bytes, Splitter, split_step, split_bytes, unsplit, finish_split, split_header,
}

-- The parts with the delimiter between them; `last` is the last one.
unfoldable pub joined : ℕ → List Bytes → Bytes → Bytes
joined delimiter [] last = last
joined delimiter (part ∷ parts) last = part ++ delimiter ∷ joined delimiter parts last

-- The value that the parts of a split stand for.
unfoldable pub join : ℕ → List Bytes → Bytes
join delimiter [] = []
join delimiter (part ∷ []) = part
join delimiter (part ∷ next ∷ parts) = part ++ delimiter ∷ join delimiter (next ∷ parts)

join-joined :
    (delimiter : ℕ) (parts : List Bytes) (last : Bytes)
    → join delimiter (parts ++ last ∷ []) ≡ joined delimiter parts last
unfolding join joined
join-joined delimiter [] last = refl
join-joined delimiter (part ∷ []) last = refl
join-joined delimiter (part ∷ next ∷ parts) last =
    ap (λ t. part ++ delimiter ∷ t) (join-joined delimiter (next ∷ parts) last)

joined-append :
    (delimiter : ℕ) (parts : List Bytes) (last more : Bytes)
    → joined delimiter parts last ++ more ≡ joined delimiter parts (last ++ more)
unfolding joined
joined-append delimiter [] last more = refl
joined-append delimiter (part ∷ parts) last more =
    append_assoc part _ more
    ∙ ap (λ t. part ++ delimiter ∷ t) (joined-append delimiter parts last more)

joined-part :
    (delimiter : ℕ) (parts : List Bytes) (part last : Bytes)
    → joined delimiter (parts ++ part ∷ []) last ≡ joined delimiter parts (part ++ delimiter ∷ last)
unfolding joined
joined-part delimiter [] part last = refl
joined-part delimiter (p ∷ parts) part last =
    ap (λ t. p ++ delimiter ∷ t) (joined-part delimiter parts part last)

abbrev taken : ℕ → Splitter → Bytes
taken delimiter s = joined delimiter s.parts s.part

taken-split_step :
    (delimiter b : ℕ) (s : Splitter)
    → taken delimiter (split_step delimiter b s) ≡ taken delimiter s ++ b ∷ []
unfolding split_step
taken-split_step delimiter b s = ground (
  arith,
  joined-append delimiter s.parts s.part (b ∷ []),
  joined-part delimiter s.parts s.part [],
  joined-append delimiter s.parts s.part (delimiter ∷ []),
)

taken-split_bytes :
    (delimiter : ℕ) (bs : Bytes) (s : Splitter)
    → taken delimiter (split_bytes delimiter bs s) ≡ taken delimiter s ++ bs
unfolding split_bytes
taken-split_bytes delimiter [] s = sym (append-nil _)
taken-split_bytes delimiter (b ∷ bs) s =
    taken-split_bytes delimiter bs (split_step delimiter b s)
    ∙ ap (λ t. t ++ bs) (taken-split_step delimiter b s)
    ∙ append_assoc (taken delimiter s) (b ∷ []) bs

-- Joining the parts that a header value is split into, with the delimiter between them, gives the
-- value back: no byte is lost, doubled or moved.
pub join-split_header :
    (value : Bytes) (delimiter : ℕ) (parts : List Bytes)
    → split_header value delimiter ≡ ok parts
    → join delimiter parts ≡ value
unfolding split_header finish_split joined
join-split_header value delimiter parts h =
    ap (join delimiter) (sym all)
    ∙ join-joined delimiter s.parts s.part
    ∙ taken-split_bytes delimiter value unsplit
  where
    s : Splitter
    s = split_bytes delimiter value unsplit

    all : s.parts ++ s.part ∷ [] ≡ parts
    all = ground arith

-- A reading of header values of its own: outside of quotes, within them, or behind a backslash there.
pub data Mode : Type 0 where
  plain quoting escaping : Mode

unfoldable next_mode : Mode → ℕ → Mode
next_mode plain b = if b == b'"' then quoting else plain
next_mode quoting b = if b == b'\\' then escaping else if b == b'"' then plain else quoting
next_mode escaping b = quoting

stops : ℕ → Mode → ℕ → Bool
stops delimiter plain b = not (b == b'"') && b == delimiter
stops delimiter quoting b = false
stops delimiter escaping b = false

-- The mode behind a text, unless it has the delimiter outside of quotes.
unfoldable pub scan : ℕ → Mode → Bytes → Option Mode
unfolding next_mode stops
scan delimiter m [] = some m
scan delimiter m (b ∷ bs) =
    let rest = scan delimiter (next_mode m b) bs in if stops delimiter m b then none else rest

scan-append :
    (delimiter : ℕ) (m m' : Mode) (bs : Bytes) (b : ℕ)
    → scan delimiter m bs ≡ some m'
    → stops delimiter m' b ≡ false
    → scan delimiter m (bs ++ b ∷ []) ≡ some (next_mode m' b)
unfolding scan
scan-append delimiter m m' [] b h k = ground arith
scan-append delimiter m m' (c ∷ bs) b h k =
    ground (arith, scan-append delimiter (next_mode m c) m' bs b)

abbrev pub All {ℓ κ} : {A : Type ℓ} → (A → Type κ) → List A → Type κ
All P [] = Unit
All P (x ∷ xs) = P x × All P xs

All-append {ℓ κ} :
    {A : Type ℓ} (P : A → Type κ) (xs : List A) (x : A) → All P xs → P x → All P (xs ++ x ∷ [])
All-append P [] x h k = (k, tt)
All-append P (y ∷ xs) x h k = (h.0, All-append P xs x h.1 k)

-- A part has no delimiter outside of quotes, and closes the quotes that it opens.
abbrev pub IsPart : ℕ → Bytes → Type 0
IsPart delimiter part = scan delimiter plain part ≡ some plain

mode_of : Splitter → Mode
mode_of s = if s.quoted then (if s.escaped then escaping else quoting) else plain

record Scanned (delimiter : ℕ) (s : Splitter) : Type 0 where
  whole : All (IsPart delimiter) s.parts
  here : scan delimiter plain s.part ≡ some (mode_of s)
  inside : (s.escaped && not s.quoted) ≡ false

parts-cases :
    (delimiter b : ℕ) (s : Splitter)
    → ((split_step delimiter b s).parts ≡ s.parts)
      ⊎ (((split_step delimiter b s).parts ≡ s.parts ++ s.part ∷ []) × (s.quoted ≡ false))
unfolding split_step
parts-cases delimiter b s = ground arith

scan_nil : (delimiter : ℕ) → scan delimiter plain [] ≡ some plain
unfolding scan
scan_nil delimiter = refl

stops_at :
    (delimiter b : ℕ)
    → (stops delimiter plain b ≡ (not (b == b'"') && b == delimiter))
      × (stops delimiter quoting b ≡ false)
      × (stops delimiter escaping b ≡ false)
      × (next_mode plain b ≡ (if b == b'"' then quoting else plain))
      × (next_mode quoting b
          ≡ (if b == b'\\' then escaping else if b == b'"' then plain else quoting))
      × (next_mode escaping b ≡ quoting)
unfolding stops next_mode
stops_at delimiter b = (refl, refl, refl, refl, refl, refl)

here_step :
    (delimiter b : ℕ) (s : Splitter)
    → (s.escaped && not s.quoted) ≡ false
    → scan delimiter plain s.part ≡ some (mode_of s)
    → scan delimiter plain (split_step delimiter b s).part
      ≡ some (mode_of (split_step delimiter b s))
unfolding split_step mode_of
here_step delimiter b s h k = ground (
  arith,
  scan-append delimiter plain plain s.part b,
  scan-append delimiter plain quoting s.part b,
  scan-append delimiter plain escaping s.part b,
  scan_nil delimiter,
  stops_at delimiter b,
)

inside_step :
    (delimiter b : ℕ) (s : Splitter)
    → (s.escaped && not s.quoted) ≡ false
    → ((split_step delimiter b s).escaped && not (split_step delimiter b s).quoted) ≡ false
unfolding split_step
inside_step delimiter b s h = ground arith

plain_mode : (s : Splitter) → s.quoted ≡ false → some (mode_of s) ≡ some plain
unfolding mode_of
plain_mode s q = ground arith

split_step-Scanned :
    (delimiter b : ℕ) (s : Splitter)
    → Scanned delimiter s
    → Scanned delimiter (split_step delimiter b s)
split_step-Scanned delimiter b s k = record {
  whole = elim (parts-cases delimiter b s) [
    | inl e ↦ subst (All (IsPart delimiter)) (sym e) k.whole
    | inr (e, q) ↦
        subst (All (IsPart delimiter)) (sym e)
          (All-append (IsPart delimiter) s.parts s.part k.whole (k.here ∙ plain_mode s q))
  ];
  here = here_step delimiter b s k.inside k.here;
  inside = inside_step delimiter b s k.inside;
}

split_bytes-Scanned :
    (delimiter : ℕ) (bs : Bytes) (s : Splitter)
    → Scanned delimiter s
    → Scanned delimiter (split_bytes delimiter bs s)
unfolding split_bytes
split_bytes-Scanned delimiter [] s k = k
split_bytes-Scanned delimiter (b ∷ bs) s k =
    split_bytes-Scanned delimiter bs (split_step delimiter b s) (split_step-Scanned delimiter b s k)

-- Each part of a split, read on its own, has no delimiter outside of quotes, and closes the quotes
-- that it opens.
pub split_header-IsPart :
    (value : Bytes) (delimiter : ℕ) (parts : List Bytes)
    → split_header value delimiter ≡ ok parts
    → All (IsPart delimiter) parts
unfolding split_header finish_split mode_of
split_header-IsPart value delimiter parts h =
    subst (All (IsPart delimiter)) all
      (All-append (IsPart delimiter) s.parts s.part k.whole (k.here ∙ plain_mode s unquoted))
  where
    s : Splitter
    s = split_bytes delimiter value unsplit

    k : Scanned delimiter s
    k =
        split_bytes-Scanned delimiter value unsplit
          (record { whole = tt; here = scan_nil delimiter; inside = refl })

    all : s.parts ++ s.part ∷ [] ≡ parts
    all = ground arith

    unquoted : s.quoted ≡ false
    unquoted = ground arith
