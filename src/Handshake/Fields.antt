-- ===== src/Handshake/Fields.antt =====
-- What the tests of src/handshake/server.rs find out about the fields of a request.
use tungstenite_rs.Prelude.{
  ◌≡◌, refl, ap, ◌∙◌, subst, Bool, true, false, Option, none, some, List, [], ◌∷◌, ◌==◌, length,
  if◌then◌else◌, arith,
}
use tungstenite_rs.Prelude.Text.{same_bytes, same_bytes_sound, same_bytes_refl}
use mathlib.Core.List.{Memᴰ}
use mathlib.Core.List.Memᴰ.{head, tail}
use tungstenite_rs.Types.{HeaderMap, Method, get_method, other_method}
use tungstenite_rs.Deflate.Text.{Bytes, eq_ignore_ascii_case}
use tungstenite_rs.Handshake.Http.{any_word, is_get, Headers, Digest}
use tungstenite_rs.Handshake.Server.{is_valid_sec_websocket_key, text_passes, value_passes}

-- One of the words is this word, in any case of its letters.
pub data IsWord (word : Bytes) (words : List Bytes) : Type 0 where
  among :
      (part : Bytes) → Memᴰ part words → eq_ignore_ascii_case part word ≡ true → IsWord word words

pub any_word-IsWord :
    (word : Bytes) (words : List Bytes) → any_word word words ≡ true → IsWord word words
unfolding any_word
any_word-IsWord word [] h = absurd (cc)
any_word-IsWord word (part ∷ words) h =
    by_first (eq_ignore_ascii_case part word) refl h (any_word-IsWord word words)
  where
    later : IsWord word words → IsWord word (part ∷ words)
    later (among p m q) = among p (tail m) q

    by_first :
        (b : Bool)
        → eq_ignore_ascii_case part word ≡ b
        → (if b then true else any_word word words) ≡ true
        → (any_word word words ≡ true → IsWord word words)
        → IsWord word (part ∷ words)
    by_first true e k rest = among part (head refl) e
    by_first false e k rest = later (rest k)

pub IsWord-any_word :
    (word : Bytes) (words : List Bytes) → IsWord word words → any_word word words ≡ true
unfolding any_word
IsWord-any_word word [] (among p m e) = elim m [ ]
IsWord-any_word word (part ∷ words) (among p (head q) e) =
    rw (subst (λ t. eq_ignore_ascii_case t word ≡ true) q e, any_word) refl
IsWord-any_word word (part ∷ words) (among p (tail m) e) =
    ground (arith, IsWord-any_word word words (among p m e))

module _ (headers : Headers) where
  -- The header is there and is a text of which this holds.
  pub data TextHeader (map : HeaderMap) (name : Bytes) (P : Bytes → Type 0) : Type 0 where
    text_is :
        (value text : Bytes)
        → headers.get map name ≡ some value
        → headers.to_str value ≡ some text
        → P text
        → TextHeader map name P

  pub text_passes-TextHeader :
      (map : HeaderMap) (name : Bytes) (test : Bytes → Bool) (P : Bytes → Type 0)
      → ((text : Bytes) → test text ≡ true → P text)
      → text_passes headers map name test ≡ true
      → TextHeader map name P
  unfolding text_passes
  text_passes-TextHeader map name test P sound h = by_value (headers.get map name) refl h
    where
      by_text :
          (value : Bytes) (o : Option Bytes)
          → headers.get map name ≡ some value
          → headers.to_str value ≡ o
          → elim o [ none ↦ false | some text ↦ test text ] ≡ true
          → TextHeader map name P
      by_text value none e q k = absurd (cc)
      by_text value (some text) e q k = text_is value text e q (sound text k)

      by_value :
          (o : Option Bytes)
          → headers.get map name ≡ o
          → elim o [
            | none ↦ false
            | some value ↦ elim (headers.to_str value) [ none ↦ false | some text ↦ test text ]
          ]
            ≡ true
          → TextHeader map name P
      by_value none e k = absurd (cc)
      by_value (some value) e k = by_text value (headers.to_str value) e refl k

  pub TextHeader-text_passes :
      (map : HeaderMap) (name : Bytes) (test : Bytes → Bool) (P : Bytes → Type 0)
      → ((text : Bytes) → P text → test text ≡ true)
      → TextHeader map name P
      → text_passes headers map name test ≡ true
  unfolding text_passes
  TextHeader-text_passes map name test P complete (text_is value text e q p) =
      rw (e, text_passes) (rw (q, text_passes) (complete text p))

  pub value_passes_sound :
      (map : HeaderMap) (name word : Bytes)
      → value_passes headers map name (λ v. same_bytes v word) ≡ true
      → headers.get map name ≡ some word
  unfolding value_passes
  value_passes_sound map name word h = by_value (headers.get map name) refl h
    where
      by_value :
          (o : Option Bytes)
          → headers.get map name ≡ o
          → elim o [ none ↦ false | some value ↦ same_bytes value word ] ≡ true
          → headers.get map name ≡ some word
      by_value none e k = absurd (cc)
      by_value (some value) e k = e ∙ ap some (same_bytes_sound value word k)

  pub value_passes_complete :
      (map : HeaderMap) (name word : Bytes)
      → headers.get map name ≡ some word
      → value_passes headers map name (λ v. same_bytes v word) ≡ true
  unfolding value_passes
  value_passes_complete map name word e = rw (e, value_passes) (same_bytes_refl word)

pub is_get_sound : (method : Method) → is_get method ≡ true → method ≡ get_method
is_get_sound get_method h = refl
is_get_sound (other_method name) h = absurd (cc)

-- A nonce as RFC 6455 has it: 24 characters that stand for 16 bytes.
pub data IsNonce (digest : Digest) (key : Bytes) : Type 0 where
  nonce :
      (decoded : Bytes)
      → digest.decode key ≡ some decoded
      → length key ≡ 24
      → length decoded ≡ 16
      → IsNonce digest key

pub key-IsNonce :
    (digest : Digest) (key : Bytes)
    → is_valid_sec_websocket_key digest key ≡ true
    → IsNonce digest key
unfolding is_valid_sec_websocket_key
key-IsNonce digest key h = by_decoded (digest.decode key) refl (ground arith) (ground arith)
  where
    by_decoded :
        (o : Option Bytes)
        → digest.decode key ≡ o
        → length key ≡ 24
        → elim o [ none ↦ false | some decoded ↦ length decoded == 16 ] ≡ true
        → IsNonce digest key
    by_decoded none e n k = absurd (cc)
    by_decoded (some decoded) e n k = nonce decoded e n (ground (arith, k))

pub IsNonce-key :
    (digest : Digest) (key : Bytes)
    → IsNonce digest key
    → is_valid_sec_websocket_key digest key ≡ true
unfolding is_valid_sec_websocket_key
IsNonce-key digest key (nonce decoded e n k) =
    rw (n, is_valid_sec_websocket_key) (rw (e, is_valid_sec_websocket_key) (rw (k) refl))
