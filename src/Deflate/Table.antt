-- ===== src/Deflate/Table.antt =====
-- What the texts of src/protocol/deflate/negotiate.rs parse to: there are few of them, and every one
-- is evaluated.
use tungstenite_rs.Prelude.Text.{same_bytes, same_bytes_sound}
use tungstenite_rs.Prelude.{
  ℕ, zero, suc, ◌⊎◌, inl, inr, ◌+◌, ◌≤◌, ◌≡◌, refl, ap, Bool, true, false, not, ◌&&◌, ◌||◌, Option,
  none, some, List, [], ◌∷◌, arith, ltb, leb, le→ltb_false, ◌==◌, if◌then◌else◌, is_some,
}
use tungstenite_rs.Prelude.Bits.{every, every-lt}
use tungstenite_rs.Result.{Result, ok, err, panic}
use tungstenite_rs.Deflate.{Settings}
use tungstenite_rs.Deflate.Text.{Bytes, split_header}
use tungstenite_rs.Deflate.Negotiate.{offer_text, response_text}
use tungstenite_rs.Deflate.Parameters.{
  Params, ClientWindow, absent, no_value, bits, Extension, empty, deflate, other, parse,
}
use tungstenite_rs.Deflate.Text
use tungstenite_rs.Utf8
use tungstenite_rs.Deflate.Parameters

-- The bytes that a header value may hold by the documentation of the http crate.
unfoldable pub all_visible : Bytes → Bool
all_visible [] = true
all_visible (b ∷ bs) = (leb 32 b && leb b 126) && all_visible bs

unfoldable one_part : Result (List Bytes) → Bytes → Bool
one_part (ok (part ∷ [])) text = same_bytes part text
one_part _ text = false

one_part_sound :
    (r : Result (List Bytes)) (text : Bytes) → one_part r text ≡ true → r ≡ ok (text ∷ [])
unfolding one_part
one_part_sound (ok []) text h = absurd (cc)
one_part_sound (ok (part ∷ [])) text h = ap (λ t. ok (t ∷ [])) (same_bytes_sound part text h)
one_part_sound (ok (part ∷ b ∷ r)) text h = absurd (cc)
one_part_sound (err e) text h = absurd (cc)
one_part_sound panic text h = absurd (cc)

same_flag : Bool → Bool → Bool
same_flag true b = b
same_flag false true = false
same_flag false false = true

same_option : Option ℕ → Option ℕ → Bool
same_option none none = true
same_option (some a) (some b) = a == b
same_option _ _ = false

same_window : ClientWindow → ClientWindow → Bool
same_window absent absent = true
same_window no_value no_value = true
same_window (bits a) (bits b) = a == b
same_window _ _ = false

unfoldable same_params : Params → Params → Bool
unfolding same_flag same_option same_window
same_params p q =
    same_flag p.server_no_context_takeover q.server_no_context_takeover
    && (same_flag p.client_no_context_takeover q.client_no_context_takeover
        && (same_option p.server_max_window_bits q.server_max_window_bits
            && (same_window p.client_max_window_bits q.client_max_window_bits && p.seen == q.seen)))

same_params_sound : (p q : Params) → same_params p q ≡ true → p ≡ q
unfolding same_params
same_params_sound p q h = ground arith

unfoldable is_deflate : Result Extension → Params → Bool
is_deflate (ok (deflate p)) q = same_params p q
is_deflate _ q = false

is_deflate_sound : (r : Result Extension) (q : Params) → is_deflate r q ≡ true → r ≡ ok (deflate q)
unfolding is_deflate
is_deflate_sound (ok (deflate p)) q h = ap (λ t. ok (deflate t)) (same_params_sound p q h)
is_deflate_sound (ok empty) q h = absurd (cc)
is_deflate_sound (ok other) q h = absurd (cc)
is_deflate_sound (err e) q h = absurd (cc)
is_deflate_sound panic q h = absurd (cc)

-- The text is one element of a list, visible, and selects these parameters.
pub record Reads (text : Bytes) (p : Params) : Type 0 where
  pub visible : all_visible text ≡ true
  pub alone : split_header text b',' ≡ ok (text ∷ [])
  pub parsed : parse text ≡ ok (deflate p)

reads : Bytes → Params → Bool
reads text p =
    all_visible text && (one_part (split_header text b',') text && is_deflate (parse text) p)

and_parts : (a b c : Bool) → (a && (b && c)) ≡ true → (a ≡ true) × (b ≡ true) × (c ≡ true)
and_parts a b c h = ground arith

reads_sound : (text : Bytes) (p : Params) → reads text p ≡ true → Reads text p
unfolding reads
reads_sound text p h =
    let (v, o, d) =
      and_parts (all_visible text) (one_part (split_header text b',') text)
        (is_deflate (parse text) p) h in
    record {
      visible = v;
      alone = one_part_sound (split_header text b',') text o;
      parsed = is_deflate_sound (parse text) p d;
    }

-- The parameters of a text, with the bits of those that it names.
abbrev pub params_of : Bool → Bool → Option ℕ → ClientWindow → Params
params_of server_reset client_reset window client_window = record {
  server_no_context_takeover = server_reset;
  client_no_context_takeover = client_reset;
  server_max_window_bits = window;
  client_max_window_bits = client_window;
  seen =
      (if server_reset then 1 else 0)
      + ((if client_reset then 2 else 0)
          + ((if is_some window then 4 else 0)
              + elim client_window [ absent ↦ 0 | no_value ↦ 8 | bits n ↦ 8 ]));
}

abbrev both : (Bool → Bool) → Bool
both test = test true && test false

abbrev pub below_full : ℕ → Option ℕ
below_full n = if ltb n 15 then some n else none

abbrev pub client_of : Option ℕ → ClientWindow
client_of none = absent
client_of (some n) = bits n

-- 0 stands for no window.
abbrev window_of : ℕ → Option ℕ
window_of zero = none
window_of (suc n) = some (suc n)

abbrev settings_with : Bool → Bool → ℕ → ℕ → Settings
settings_with a b window client_window = record {
  compression = 6;
  server_no_context_takeover = a;
  client_no_context_takeover = b;
  server_max_window_bits = window;
  client_max_window_bits = client_window;
}

offer_row : ℕ → Bool
offer_row w =
    ltb w 9
    || both (λ a.
      both
        (λ b. reads (offer_text (settings_with a b w 15)) (params_of a b (below_full w) no_value)))

offer_table : every offer_row 16 ≡ true
unfolding every offer_row reads offer_text parse split_header all_visible one_part is_deflate
    same_bytes same_params Parameters.split_quoted Parameters.parse_parameters
    Parameters.parse_parameter Parameters.parameter_bit Parameters.set_parameter
    Parameters.parse_bits Parameters.default_params Text.trim_ascii Text.trim Text.before
    Text.split_once Text.eq_ignore_ascii_case Text.decimal Text.unquote Text.all_digits
    Text.parse_u8 Text.starts_with_zero Utf8.from_utf8 Utf8.validate Utf8.front
offer_table = refl

response_case : ℕ → ℕ → Bool → Bool → Bool
response_case w k a b =
    reads (response_text (settings_with a b 15 k) (window_of w))
      (params_of a b (window_of w) (client_of (below_full k)))

response_row : ℕ → ℕ → Bool
response_row w k =
    (ltb w 9 && not (w == 0)) || (ltb k 8 || both (λ a. both (λ b. response_case w k a b)))

response_table : every (λ w. every (response_row w) 16) 16 ≡ true
unfolding every response_row response_case reads response_text parse split_header all_visible
    one_part is_deflate same_bytes same_params Parameters.split_quoted Parameters.parse_parameters
    Parameters.parse_parameter Parameters.parameter_bit Parameters.set_parameter
    Parameters.parse_bits Parameters.default_params Text.trim_ascii Text.trim Text.before
    Text.split_once Text.eq_ignore_ascii_case Text.decimal Text.unquote Text.all_digits
    Text.parse_u8 Text.starts_with_zero Utf8.from_utf8 Utf8.validate Utf8.front
response_table = refl

both_at : (test : Bool → Bool) (b : Bool) → both test ≡ true → test b ≡ true
both_at test true h = ground arith
both_at test false h = ground arith

or_right : (a b : Bool) → a ≡ false → (a || b) ≡ true → b ≡ true
or_right a b e h = ground arith

pub Reads-offer_text :
    (s : Settings)
    → 9 ≤ s.server_max_window_bits
    → s.server_max_window_bits ≤ 15
    → Reads (offer_text s) (
        params_of s.server_no_context_takeover s.client_no_context_takeover
          (below_full s.server_max_window_bits)
          no_value)
unfolding offer_row offer_text
Reads-offer_text s lo hi = reads_sound (offer_text s) _ passed
  where
    w : ℕ
    w = s.server_max_window_bits

    test : Bool → Bool → Bool
    test a b = reads (offer_text (settings_with a b w 15)) (params_of a b (below_full w) no_value)

    row : offer_row w ≡ true
    row = every-lt offer_row 16 w (omega arith) offer_table

    passed :
        reads (offer_text s) (
          params_of s.server_no_context_takeover s.client_no_context_takeover
            (below_full w)
            no_value)
        ≡ true
    passed = both_at (test s.server_no_context_takeover) s.client_no_context_takeover (
        both_at (λ a. both (test a)) s.server_no_context_takeover
          (or_right (ltb w 9) (both (λ a. both (test a))) (le→ltb_false w 9 lo) row))

-- The windows that a response may name.
pub data Window : Option ℕ → Type 0 where
  unnamed : Window none
  named : (n : ℕ) → 9 ≤ n → n ≤ 15 → Window (some n)

response_passes :
    (w k : ℕ) (a b : Bool)
    → (w ≡ 0) ⊎ (9 ≤ w)
    → w ≤ 15
    → 8 ≤ k
    → k ≤ 15
    → response_case w k a b ≡ true
unfolding response_row
response_passes w k a b from to lo hi =
    both_at (λ y. response_case w k a y) b
      (both_at (λ x. both (response_case w k x)) a
        (or_right (ltb k 8) (both (λ x. both (response_case w k x))) (le→ltb_false k 8 lo)
          (or_right (ltb w 9 && not (w == 0)) _ (ground arith) row)))
  where
    rows : every (response_row w) 16 ≡ true
    rows = every-lt (λ v. every (response_row v) 16) 16 w (omega arith) response_table

    row : response_row w k ≡ true
    row = every-lt (response_row w) 16 k (omega arith) rows

pub Reads-response_text :
    (agreed : Settings) (window : Option ℕ)
    → Window window
    → 8 ≤ agreed.client_max_window_bits
    → agreed.client_max_window_bits ≤ 15
    → Reads (response_text agreed window) (
        params_of agreed.server_no_context_takeover agreed.client_no_context_takeover window
          (client_of (below_full agreed.client_max_window_bits)))
unfolding response_text response_case
Reads-response_text agreed window unnamed lo hi = reads_sound _ _ (
    response_passes 0 agreed.client_max_window_bits agreed.server_no_context_takeover
      agreed.client_no_context_takeover (inl refl) (omega arith) lo hi)
Reads-response_text agreed window (named (suc n) from to) lo hi = reads_sound _ _ (
    response_passes (suc n) agreed.client_max_window_bits agreed.server_no_context_takeover
      agreed.client_no_context_takeover (inr from) to lo hi)
Reads-response_text agreed window (named zero from to) lo hi = absurd (omega arith)
