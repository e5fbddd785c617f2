-- ===== src/Collector/Text.antt =====
-- A text that is checked fragment by fragment (`StringCollector` of src/protocol/message.rs) is the
-- text that would be found by checking the joined fragments.
use tungstenite_rs.Prelude.{
  ℕ, ◌≡◌, refl, sym, ◌∙◌, ap, subst, Option, none, some, List, [], ◌∷◌, ◌++◌, append_assoc,
  append-nil, length,
}
use tungstenite_rs.Types.{utf8}
use mathlib.Core.List.{flatten}
use tungstenite_rs.Result.{Result, ok, err, panic, Exec, pure, ◌>>◌}
use tungstenite_rs.Utf8.{bad, short, from_utf8, try_from}
use tungstenite_rs.Utf8.Scan.{
  Chars, nothing, Chars-append, from_utf8-append, from_utf8-append_bad, from_utf8-Chars,
}
use tungstenite_rs.Utf8.Decode.{Incomplete, Decoded, Completed}
use tungstenite_rs.Utf8.Splice.{Holds, Decodes, to_valid, to_invalid, to_incomplete, decode-Decodes}
use tungstenite_rs.Utf8.Complete.{Completes, to_more, to_text, to_error, try_complete-Completes}
use tungstenite_rs.Collector.{
  StringCollector, new_string, push_decoded, push_input, push_completed, extend_string, into_string,
}

-- The collector has taken in `bs`: whole characters, and the beginning of one at most.
pub data Collected (c : StringCollector) (bs : List ℕ) : Type 0 where
  no_rest : c.incomplete ≡ none → bs ≡ c.text → Chars c.text → Collected c bs
  some_rest :
      (i : Incomplete) (pending : List ℕ)
      → c.incomplete ≡ some i
      → bs ≡ c.text ++ pending
      → Chars c.text
      → Holds i pending
      → Collected c bs

-- The fragments so far are taken in, or they cannot begin a text.
pub data Extends (bs : List ℕ) (r : Result (Unit {0}) × StringCollector) : Type 0 where
  extended : (c : StringCollector) → Collected c bs → r ≡ (ok tt, c) → Extends bs r
  refused :
      (c : StringCollector) (v n : ℕ)
      → from_utf8 bs ≡ some (record { valid_up_to = v; error_len = some n })
      → r ≡ (err utf8, c)
      → Extends bs r

Extends-of :
    {xs ys : List ℕ} {r : Result (Unit {0}) × StringCollector}
    → xs ≡ ys
    → Extends xs r
    → Extends ys r
Extends-of {r} e h = subst (λ bs. Extends bs r) e h

push_decoded-Extends :
    (c : StringCollector) (input : List ℕ) {r : Result Decoded}
    → c.incomplete ≡ none
    → Chars c.text
    → Decodes input r
    → Extends (c.text ++ input) (push_decoded r c)
push_decoded-Extends c input z k (to_valid h e) =
    extended (record c { text = c.text ++ input }) (no_rest z refl (Chars-append input k h))
      (rw e (unfold push_decoded in refl))
push_decoded-Extends c input z k (to_invalid v b rest d h f e) =
    refused (record c { text = c.text ++ v }) (length (c.text ++ v)) (length b)
      (ap from_utf8 (ap (λ t. c.text ++ t) d ∙ sym (append_assoc c.text v (b ++ rest)))
        ∙ from_utf8-append (b ++ rest) (bad (length b)) (Chars-append v k h) f (λ w. cc))
      (rw e (unfold push_decoded in refl))
push_decoded-Extends c input z k (to_incomplete v suffix i d h held e) =
    extended (record { text = c.text ++ v; incomplete = some i })
      (some_rest i suffix refl (ap (λ t. c.text ++ t) d ∙ sym (append_assoc c.text v suffix))
        (Chars-append v k h) held)
      (rw e (unfold push_decoded in refl))

push_input-Extends :
    (c : StringCollector) (input : List ℕ)
    → c.incomplete ≡ none
    → Chars c.text
    → Extends (c.text ++ input) (push_input input c)
unfolding push_input
push_input-Extends c [] z k = extended c (no_rest z (append-nil c.text) k) refl
push_input-Extends c (b ∷ bs) z k = push_decoded-Extends c (b ∷ bs) z k (decode-Decodes (b ∷ bs))

push_completed-Extends :
    (c : StringCollector) (pending input : List ℕ) {r : Result (Option Completed) × Incomplete}
    → c.incomplete ≡ none
    → Chars c.text
    → Completes pending input r
    → Extends (c.text ++ (pending ++ input)) (push_completed r c)
unfolding push_completed
push_completed-Extends c pending input z k (to_more i held e) =
    extended (record c { incomplete = some i }) (some_rest i (pending ++ input) refl refl k held)
      (rw e refl)
push_completed-Extends c pending input z k (to_text i text rest d low h clear e) = rw e (
    Extends-of (append_assoc c.text text rest ∙ ap (λ t. c.text ++ t) (sym d))
      (push_input-Extends (record c { text = c.text ++ text }) rest z (Chars-append text k h)))
push_completed-Extends c pending input z k (to_error i n b rest d low size f clear e) =
    refused c (length c.text) n (from_utf8-append (pending ++ input) (bad n) k f (λ w. cc))
      (rw e refl)

-- One more fragment is taken in, unless it makes the text one that no further fragment can mend;
-- the collector never panics.
pub extend_string-Extends :
    {c : StringCollector} {bs : List ℕ} (tail : List ℕ)
    → Collected c bs
    → Extends (bs ++ tail) (extend_string tail c)
unfolding extend_string
extend_string-Extends {c} tail (no_rest z d k) =
    rw (z, extend_string) (Extends-of (ap (λ t. t ++ tail) (sym d)) (push_input-Extends c tail z k))
extend_string-Extends {c} tail (some_rest i pending z d k held) =
    rw (z, extend_string)
      (Extends-of (sym (append_assoc c.text pending tail) ∙ ap (λ t. t ++ tail) (sym d)) (
        push_completed-Extends (record c { incomplete = none }) pending tail refl k
          (try_complete-Completes i pending tail held)))

-- Taking in all fragments, one after the other, and giving out the text.
pub extend_all : List (List ℕ) → Exec StringCollector (Unit {0})
extend_all [] = pure tt
extend_all (tail ∷ tails) = do extend_string tail; extend_all tails

finish_text : Result (Unit {0}) × StringCollector → Result (List ℕ)
finish_text (ok u, c) = into_string c
finish_text (err e, c) = err e
finish_text (panic, c) = panic

pub collect : List (List ℕ) → StringCollector → Result (List ℕ)
unfolding extend_all finish_text
collect tails c = finish_text (extend_all tails c)

collect-nil : (c : StringCollector) (bs : List ℕ) → Collected c bs → collect [] c ≡ try_from bs
unfolding collect into_string try_from
collect-nil c bs (no_rest z d k) =
    rw (d, z, into_string) (rw (from_utf8-Chars c.text k, try_from) refl)
collect-nil c bs (some_rest i pending z d k held) =
    rw (d, z, into_string)
      (rw (from_utf8-append pending short k held.is_short (λ w. cc), try_from) refl)

try_from-bad :
    (bs more : List ℕ) (v n : ℕ)
    → from_utf8 bs ≡ some (record { valid_up_to = v; error_len = some n })
    → try_from (bs ++ more) ≡ err utf8
unfolding try_from
try_from-bad bs more v n e =
    let (w, q) = from_utf8-append_bad bs more v n e in rw (q, try_from) refl

collect-step :
    (tail : List ℕ) (tails : List (List ℕ)) (c c' : StringCollector)
    → extend_string tail c ≡ (ok tt, c')
    → collect (tail ∷ tails) c ≡ collect tails c'
unfolding collect
collect-step tail tails c c' e = rw e refl

collect-refused :
    (tail : List ℕ) (tails : List (List ℕ)) (c c' : StringCollector)
    → extend_string tail c ≡ (err utf8, c')
    → collect (tail ∷ tails) c ≡ err utf8
unfolding collect
collect-refused tail tails c c' e = rw e refl

collect_from :
    (tails : List (List ℕ)) {c : StringCollector} (bs : List ℕ)
    → Collected c bs
    → collect tails c ≡ try_from (bs ++ flatten tails)
unfolding flatten
collect_from [] {c} bs h = collect-nil c bs h ∙ ap try_from (sym (append-nil bs))
collect_from (tail ∷ tails) {c} bs h =
    by_step (λ c' k. collect_from tails {c = c'} (bs ++ tail) k) (extend_string-Extends tail h)
  where
    regroup : (bs ++ tail) ++ flatten tails ≡ bs ++ flatten (tail ∷ tails)
    regroup = append_assoc bs tail (flatten tails)

    by_step :
        ((c' : StringCollector)
          → Collected c' (bs ++ tail)
          → collect tails c' ≡ try_from ((bs ++ tail) ++ flatten tails))
        → Extends (bs ++ tail) (extend_string tail c)
        → collect (tail ∷ tails) c ≡ try_from (bs ++ flatten (tail ∷ tails))
    by_step later (extended c' k e) =
        collect-step tail tails c c' e ∙ later c' k ∙ ap try_from regroup
    by_step later (refused c' v n q e) =
        collect-refused tail tails c c' e
        ∙ sym (ap try_from (sym regroup) ∙ try_from-bad (bs ++ tail) (flatten tails) v n q)

-- A text taken in as fragments, cut anywhere, comes out exactly if the joined fragments are UTF-8,
-- and it is the joined fragments; otherwise a UTF-8 error comes out, and never a panic.
pub collect-try_from : (tails : List (List ℕ)) → collect tails new_string ≡ try_from (flatten tails)
unfolding new_string
collect-try_from tails = collect_from tails [] (no_rest refl refl nothing)
