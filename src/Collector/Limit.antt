-- ===== src/Collector/Limit.antt =====
-- The limit on the size of a message that arrives in fragments (`IncompleteMessage::extend` of
-- src/protocol/message.rs).
use tungstenite_rs.Prelude.{
  ℕ, ◌+◌, ◌-◌, ◌≤◌, ◌<◌, ◌≡◌, refl, ap, ◌⊎◌, inl, inr, Bool, true, false, ◌||◌, Option, List, ◌++◌,
  length, length-append, arith, min, ltb,
}
use tungstenite_rs.Types.{capacity, message_too_long}
use tungstenite_rs.Result.{err}
use tungstenite_rs.Collector.{
  StringCollector, IncompleteMessage, text_message, binary_message, usize_max, string_len, len,
  limit_of, extend, extend_collector,
}
use tungstenite_rs.Collector.Text.{Collected, no_rest, some_rest}

-- The message has taken in these bytes.
unfoldable pub Taken : IncompleteMessage → List ℕ → Type 0
Taken (text_message c) bs = Collected c bs
Taken (binary_message v) bs = v ≡ bs

string_len-Collected :
    {c : StringCollector} {bs : List ℕ} → Collected c bs → string_len c ≡ min (length bs) usize_max
unfolding string_len
string_len-Collected {c} {bs} (no_rest z d k) =
    rw z (ap (λ n. min n usize_max) (omega (arith, ap length d)))
string_len-Collected {c} {bs} (some_rest i pending z d k held) = rw z (
    ap (λ n. min n usize_max)
      (omega (arith, ap length d, length-append c.text pending, held.held_len)))

len-Taken :
    (m : IncompleteMessage) (bs : List ℕ) → Taken m bs → length bs ≤ usize_max → len m ≡ length bs
unfolding Taken len
len-Taken (text_message c) bs h fits = omega (arith, string_len-Collected h)
len-Taken (binary_message v) bs h fits = ap length h

too_long : ℕ → ℕ → ℕ → Bool
too_long limit size portion = ltb limit size || ltb (limit - size) portion

too_long-cases :
    (limit size portion : ℕ)
    → ((limit < size + portion) × (too_long limit size portion ≡ true))
      ⊎ ((size + portion ≤ limit) × (too_long limit size portion ≡ false))
unfolding too_long
too_long-cases limit size portion = ground arith

-- The limit on the size of a message is exact: a further fragment is refused, with the message left
-- as it was and the true size in the error, exactly if the bytes taken in and the fragment together
-- are more than the limit; otherwise the collector gets the fragment.
pub extend-Taken :
    (m : IncompleteMessage) (bs tail : List ℕ) (limit : Option ℕ)
    → Taken m bs
    → length bs ≤ usize_max
    → ((limit_of limit < length (bs ++ tail))
        × (extend tail limit m
            ≡ (err (capacity (message_too_long (length (bs ++ tail)) (limit_of limit))), m)))
      ⊎ ((length (bs ++ tail) ≤ limit_of limit) × (extend tail limit m ≡ extend_collector tail m))
unfolding extend too_long
extend-Taken m bs tail limit h fits =
    rw (len-Taken m bs h fits, length-append bs tail)
      (elim (too_long-cases (limit_of limit) (length bs) (length tail)) [
        | inl (big, e) ↦ inl (big, rw (e, extend) refl)
        | inr (small, e) ↦ inr (small, rw (e, extend) refl)
      ])
