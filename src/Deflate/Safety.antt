-- ===== src/Deflate/Safety.antt =====
-- What is agreed on stays within what this endpoint can encode and decode, whatever the peer's
-- header says (src/protocol/deflate/negotiate.rs).
pub mod Server
use tungstenite_rs.Prelude.{
  ℕ, ◌≤◌, ◌≡◌, refl, Bool, true, false, Option, none, some, List, [], ◌∷◌, arith, subst,
  if◌then◌else◌,
}
use tungstenite_rs.Result.{Result, ok, err, panic, or_panic}
use tungstenite_rs.Result.Fallible.{◌>>=◌, Ensures, bind-Ensures, trivial-Ensures}
use tungstenite_rs.Deflate.{Settings}
use tungstenite_rs.Deflate.Text.{Bytes, split_header}
use tungstenite_rs.Deflate.Negotiate.{
  accept_selected, consider, parts_of, response_text, select, select_all, select_values,
  accept_params, accept_response, agree_server_window, agree_client_window, offered_server_window,
  offered_client_window, agree_offer, accept_offer, accept_offers, Search, going, found, weigh,
  search_parts, search_offers,
}
use tungstenite_rs.Deflate.Parameters.{Params, Extension, empty, deflate, other, parse}
use tungstenite_rs.Deflate.Agreement.{IsFit}
use tungstenite_rs.Deflate.Windows.{params_in_bounds, extension_in_bounds, parse_lem}

AreBounded : Option Params → Type 0
AreBounded none = Unit
AreBounded (some p) = params_in_bounds p ≡ true

unfoldable pub IsBounded : Extension → Type 0
IsBounded (deflate p) = params_in_bounds p ≡ true
IsBounded empty = Unit
IsBounded other = Unit

pub parse-IsBounded : (extension : Bytes) → Ensures IsBounded (parse extension)
parse-IsBounded extension = by_result (parse extension) (parse_lem extension)
  where
    by_result : (r : Result Extension) → extension_in_bounds r ≡ true → Ensures IsBounded r
    by_result (ok (deflate p)) h = unfold IsBounded extension_in_bounds in h
    by_result (ok empty) h = unfold IsBounded in tt
    by_result (ok other) h = unfold IsBounded in tt
    by_result (err e) h = tt
    by_result panic h = tt

select-AreBounded :
    (selected : Option Params) (e : Extension)
    → AreBounded selected
    → IsBounded e
    → Ensures AreBounded (select selected e)
unfolding select AreBounded IsBounded
select-AreBounded none empty h k = tt
select-AreBounded none (deflate p) h k = k
select-AreBounded none other h k = tt
select-AreBounded (some q) empty h k = h
select-AreBounded (some q) (deflate p) h k = tt
select-AreBounded (some q) other h k = tt

select_all-AreBounded :
    (parts : List Bytes) (selected : Option Params)
    → AreBounded selected
    → Ensures AreBounded (select_all selected parts)
unfolding select_all
select_all-AreBounded [] selected h = h
select_all-AreBounded (part ∷ parts) selected h =
    bind-Ensures IsBounded AreBounded (parse part) _ (parse-IsBounded part) (λ e k.
      bind-Ensures AreBounded AreBounded (select selected e) (λ next. select_all next parts)
        (select-AreBounded selected e h k) (λ next l. select_all-AreBounded parts next l))

select_values-AreBounded :
    (values : List Bytes) (selected : Option Params)
    → AreBounded selected
    → Ensures AreBounded (select_values selected values)
unfolding select_values
select_values-AreBounded [] selected h = h
select_values-AreBounded (value ∷ values) selected h =
    bind-Ensures (λ _. Unit) AreBounded (split_header value b',') _ (trivial-Ensures _)
      (λ parts k.
        bind-Ensures AreBounded AreBounded (select_all selected parts)
          (λ next. select_values next values) (select_all-AreBounded parts selected h)
          (λ next l. select_values-AreBounded values next l))

-- What a client may agree to: an encoder's window that flate2 takes and that it set itself at most,
-- and a decoder's window that it offered at most.
abbrev pub IsClientSafe : Settings → Settings → Type 0
IsClientSafe s agreed =
    (9 ≤ agreed.client_max_window_bits)
    × (agreed.client_max_window_bits ≤ s.client_max_window_bits)
    × (8 ≤ agreed.server_max_window_bits)
    × (agreed.server_max_window_bits ≤ s.server_max_window_bits)

accept_params-IsClientSafe :
    (s : Settings) (p : Params) (agreed : Settings)
    → IsFit s
    → params_in_bounds p ≡ true
    → accept_params s p ≡ ok agreed
    → IsClientSafe s agreed
unfolding accept_params agree_server_window agree_client_window params_in_bounds
accept_params-IsClientSafe s p agreed fit h e =
    ground (arith, fit.server_low, fit.server_high, fit.client_low, fit.client_high)

module _ (s : Settings) (fit : IsFit s) where
  Agreed : Option Settings → Type 0
  Agreed none = Unit
  Agreed (some agreed) = IsClientSafe s agreed

  accept_selected-Agreed :
      (selected : Option Params) → AreBounded selected → Ensures Agreed (accept_selected s selected)
  unfolding accept_selected AreBounded Agreed
  accept_selected-Agreed none h = tt
  accept_selected-Agreed (some p) h = by_params (accept_params s p) refl
    where
      by_params :
          (r : Result Settings)
          → accept_params s p ≡ r
          → Ensures Agreed (r >>= λ agreed. ok (some agreed))
      by_params (ok agreed) e = accept_params-IsClientSafe s p agreed fit h e
      by_params (err e) k = tt
      by_params panic k = tt

  -- Whatever a server answers, what a client with settings in range accepts is safe: its own
  -- window is one that flate2 takes, 9 or more, and what it set itself at most; the server's is 8
  -- or more, and what it offered at most.
  pub accept_response-IsClientSafe :
      (values : List Bytes) (agreed : Settings)
      → accept_response s values ≡ ok (some agreed)
      → IsClientSafe s agreed
  unfolding accept_response Agreed AreBounded
  accept_response-IsClientSafe values agreed e = subst (Ensures Agreed) e (
      bind-Ensures AreBounded Agreed (select_values none values) (accept_selected s)
        (select_values-AreBounded values none tt) accept_selected-Agreed)
