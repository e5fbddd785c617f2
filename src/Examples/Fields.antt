-- ===== src/Examples/Fields.antt =====
-- A concrete header map for the theorems on src/handshake: fields in the order of their insertion,
-- found in any case of their names, with visible values.
use tungstenite_rs.Prelude.{
  ℕ, ◌≡◌, refl, sym, ap, ◌∙◌, ◌==◌, ◌⊎◌, inl, inr, Bool, true, false, Option, none, some, List, [],
  ◌∷◌, ◌++◌, if◌then◌else◌, leb, ◌&&◌, arith,
}
use tungstenite_rs.Prelude.Text.{codes}
use mathlib.Core.List.{Memᴰ}
use mathlib.Core.List.Memᴰ.{head, tail}
use tungstenite_rs.Types.{HeaderMap}
use tungstenite_rs.Deflate.Text.{Bytes, eq_ignore_ascii_case}
use tungstenite_rs.Deflate.Table.{all_visible}
use tungstenite_rs.Handshake.Http.{Headers, Lawful}

unfoldable pub lookup : HeaderMap → Bytes → Option Bytes
lookup [] name = none
lookup ((n, value) ∷ map) name = if eq_ignore_ascii_case n name then some value else lookup map name

unfoldable pub lookup_all : HeaderMap → Bytes → List Bytes
lookup_all [] name = []
lookup_all ((n, value) ∷ map) name =
    let rest = lookup_all map name in if eq_ignore_ascii_case n name then value ∷ rest else rest

unfoldable pub without_name : HeaderMap → Bytes → HeaderMap
without_name [] name = []
without_name ((n, value) ∷ map) name =
    let rest = without_name map name in
    if eq_ignore_ascii_case n name then rest else (n, value) ∷ rest

unfoldable pub visible : Bytes → Option Bytes
visible text = if all_visible text then some text else none

abbrev pub plain_headers : Headers
plain_headers = record {
  get = lookup;
  get_all = lookup_all;
  append = λ map n value. map ++ (n, value) ∷ [];
  remove = λ map name. (lookup map name, without_name map name);
  to_str = visible;
  from_str = visible;
  name_from_bytes = visible;
  value_from_bytes = visible;
  parse_uri = visible;
  status_from_u16 = λ n. if leb 100 n && leb n 999 then some n else none;
  status_text = λ n. codes "status";
  is_success = λ n. leb 200 n && leb n 299;
  is_redirection = λ n. leb 300 n && leb n 399;
}

lookup_first :
    (map : HeaderMap) (n name value : Bytes)
    → eq_ignore_ascii_case n name ≡ true
    → lookup map name ≡ none
    → lookup (map ++ (n, value) ∷ []) name ≡ some value
unfolding lookup
lookup_first [] n name value e h = ground arith
lookup_first ((m, v) ∷ map) n name value e h = ground (arith, lookup_first map n name value e)

lookup_later :
    (map : HeaderMap) (n name value old : Bytes)
    → lookup map name ≡ some old
    → lookup (map ++ (n, value) ∷ []) name ≡ some old
unfolding lookup
lookup_later [] n name value old h = absurd (cc)
lookup_later ((m, v) ∷ map) n name value old h = ground (arith, lookup_later map n name value old)

lookup_other :
    (map : HeaderMap) (n name value : Bytes)
    → eq_ignore_ascii_case n name ≡ false
    → lookup (map ++ (n, value) ∷ []) name ≡ lookup map name
unfolding lookup
lookup_other [] n name value e = ground arith
lookup_other ((m, v) ∷ map) n name value e = ground (arith, lookup_other map n name value e)

lookup_all_same :
    (map : HeaderMap) (n name value : Bytes)
    → eq_ignore_ascii_case n name ≡ true
    → lookup_all (map ++ (n, value) ∷ []) name ≡ lookup_all map name ++ value ∷ []
unfolding lookup_all
lookup_all_same [] n name value e = ground arith
lookup_all_same ((m, v) ∷ map) n name value e =
    by_name (eq_ignore_ascii_case m name) (lookup_all_same map n name value e)
  where
    by_name :
        (b : Bool)
        → lookup_all (map ++ (n, value) ∷ []) name ≡ lookup_all map name ++ value ∷ []
        → (if b
            then v ∷ lookup_all (map ++ (n, value) ∷ []) name
            else lookup_all (map ++ (n, value) ∷ []) name)
          ≡ (if b then v ∷ lookup_all map name else lookup_all map name) ++ value ∷ []
    by_name true h = ap (λ vs. v ∷ vs) h
    by_name false h = h

lookup_all_other :
    (map : HeaderMap) (n name value : Bytes)
    → eq_ignore_ascii_case n name ≡ false
    → lookup_all (map ++ (n, value) ∷ []) name ≡ lookup_all map name
unfolding lookup_all
lookup_all_other [] n name value e = ground arith
lookup_all_other ((m, v) ∷ map) n name value e = ground (arith, lookup_all_other map n name value e)

lookup_all-none :
    (map : HeaderMap) (name : Bytes) → lookup map name ≡ none → lookup_all map name ≡ []
unfolding lookup lookup_all
lookup_all-none [] name h = refl
lookup_all-none ((m, v) ∷ map) name h = ground (arith, lookup_all-none map name)

entry_last :
    (map : HeaderMap) (n value : Bytes) (entry : Bytes × Bytes)
    → Memᴰ entry (map ++ (n, value) ∷ [])
    → Memᴰ entry map ⊎ (entry.1 ≡ value)
entry_last [] n value entry (head e) = inr (ap (λ x. x.1) e)
entry_last [] n value entry (tail m) = elim m [ ]
entry_last (x ∷ map) n value entry (head e) = inl (head e)
entry_last (x ∷ map) n value entry (tail m) = later (entry_last map n value entry m)
  where
    later : Memᴰ entry map ⊎ (entry.1 ≡ value) → Memᴰ entry (x ∷ map) ⊎ (entry.1 ≡ value)
    later (inl k) = inl (tail k)
    later (inr k) = inr k

test_sym : (a b : ℕ) → (a == b) ≡ (b == a)
test_sym a b = ground arith

eq_sym : (a b : Bytes) → eq_ignore_ascii_case a b ≡ eq_ignore_ascii_case b a
unfolding eq_ignore_ascii_case
eq_sym [] [] = refl
eq_sym [] (y ∷ b) = refl
eq_sym (x ∷ a) [] = refl
eq_sym (x ∷ a) (y ∷ b) = ground (arith, eq_sym a b)

-- One text is two others, in any case: these are the same.
eq_common :
    (a b c : Bytes)
    → eq_ignore_ascii_case a b ≡ true
    → eq_ignore_ascii_case a c ≡ true
    → eq_ignore_ascii_case b c ≡ true
unfolding eq_ignore_ascii_case
eq_common [] [] c h k = k
eq_common [] (y ∷ b) c h k = absurd (cc)
eq_common (x ∷ a) [] c h k = absurd (cc)
eq_common (x ∷ a) (y ∷ b) [] h k = absurd (cc)
eq_common (x ∷ a) (y ∷ b) (z ∷ c) h k = ground (arith, eq_common a b c)

lookup_left :
    (map : HeaderMap) (n name : Bytes)
    → eq_ignore_ascii_case n name ≡ false
    → lookup (without_name map n) name ≡ lookup map name
unfolding lookup without_name
lookup_left [] n name e = refl
lookup_left ((m, v) ∷ map) n name e = ground (arith, lookup_left map n name e, eq_common m n name)

entry_left :
    (map : HeaderMap) (name : Bytes) (entry : Bytes × Bytes)
    → Memᴰ entry (without_name map name)
    → Memᴰ entry map × (eq_ignore_ascii_case name entry.0 ≡ false)
unfolding without_name
entry_left [] name entry m = elim m [ ]
entry_left ((n, v) ∷ map) name entry m =
    by_name (eq_ignore_ascii_case n name) refl m (entry_left map name entry)
  where
    Left : HeaderMap → Type 0
    Left all = Memᴰ entry all × (eq_ignore_ascii_case name entry.0 ≡ false)

    by_name :
        (b : Bool)
        → eq_ignore_ascii_case n name ≡ b
        → Memᴰ entry (if b then without_name map name else (n, v) ∷ without_name map name)
        → (Memᴰ entry (without_name map name) → Left map)
        → Left ((n, v) ∷ map)
    by_name true e k rest = let (l, f) = rest k in (tail l, f)
    by_name false e (head q) rest = (head q, rw (q) (eq_sym name n ∙ e))
    by_name false e (tail k) rest = let (l, f) = rest k in (tail l, f)

some-injective : {A : Type 0} {a b : A} → some a ≡ some b → a ≡ b
some-injective e = cc

lookup_entry :
    (map : HeaderMap) (name value : Bytes)
    → lookup map name ≡ some value
    → (n : Bytes) × Memᴰ (n, value) map × (eq_ignore_ascii_case n name ≡ true)
unfolding lookup
lookup_entry [] name value h = absurd (cc)
lookup_entry ((n, v) ∷ map) name value h =
    by_name (eq_ignore_ascii_case n name) refl h (lookup_entry map name value)
  where
    Among : HeaderMap → Type 0
    Among all = (k : Bytes) × Memᴰ (k, value) all × (eq_ignore_ascii_case k name ≡ true)

    by_name :
        (b : Bool)
        → eq_ignore_ascii_case n name ≡ b
        → (if b then some v else lookup map name) ≡ some value
        → (lookup map name ≡ some value → Among map)
        → Among ((n, v) ∷ map)
    by_name true e q rest = (n, head (ap (λ t. (n, t)) (sym (some-injective q))), e)
    by_name false e q rest = let (k, m, f) = rest q in (k, tail m, f)

visible_lem : (text : Bytes) → all_visible text ≡ true → visible text ≡ some text
unfolding visible
visible_lem text h = rw (h) refl

pub plain_headers-Lawful : Lawful plain_headers
unfolding lookup lookup_all
plain_headers-Lawful = record {
  get_empty = λ name. refl;
  get_all_empty = λ name. refl;
  get_first = lookup_first;
  get_later = lookup_later;
  get_other = lookup_other;
  get_all_same = lookup_all_same;
  get_all_other = lookup_all_other;
  get_all_none = lookup_all-none;
  get_removed = λ map name. refl;
  get_left = lookup_left;
  entry_left = entry_left;
  entry_append = entry_last;
  get_entry = lookup_entry;
  to_str_visible = visible_lem;
  from_str_visible = visible_lem;
}
