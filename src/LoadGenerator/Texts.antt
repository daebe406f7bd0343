-- ===== src/LoadGenerator/Texts.antt =====
-- The replies whose detail is text, as in every `HTTPException` of app/main.py: load_generator.py counts
-- and prints them all.
use ai_routing.Prelude.{
  ℕ, zero, suc, ◌≡◌, refl, true, Option, none, some, List, inl, inr, Bool-cases, ◌==◌, is_some,
}
use ai_routing.LoadGenerator.{
  get_or, DetailValue, detail_text, detail_list, Reply, replies, raises, Sent, send_request,
}
use ai_routing.LoadGenerator.Prompts.{request_name}
use ai_routing.LoadGenerator.Counters.{has_failed, send_all}
use ai_routing.LoadGenerator.Reasons.{is_text, can_count, countable}
use ai_routing.LoadGenerator.Demo.{Server, replies_from, print_results, shows_breach, says_breach}

abbrev TextOnly : Option DetailValue → Type 0
TextOnly none = Unit
TextOnly (some (detail_text detail)) = Unit
TextOnly (some detail_list) = ⊥

abbrev pub HasText : Reply → Type 0
HasText (replies status none) = Unit
HasText (replies status (some body)) = TextOnly body.detail
HasText (raises text) = Unit

get_or-is_text : (o : Option DetailValue) → TextOnly o → is_text (get_or o (detail_text "")) ≡ true
get_or-is_text none h = refl
get_or-is_text (some (detail_text detail)) h = refl
get_or-is_text (some detail_list) h = absurd h

send_request-is_text :
    (req_id : List ℕ) (duration_ms : ℕ) (reply : Reply)
    → HasText reply
    → is_text (send_request req_id duration_ms reply).detail ≡ true
unfolding send_request
send_request-is_text req_id duration_ms (replies status none) h = refl
send_request-is_text req_id duration_ms (replies status (some body)) h =
    get_or-is_text body.detail h
send_request-is_text req_id duration_ms (raises text) h = refl

text-can_count : (res : Sent) → is_text res.detail ≡ true → can_count res ≡ true
text-can_count res h = elim (Bool-cases (has_failed res)) [
  | inl failed ↦ rw failed h
  | inr fine ↦ rw fine refl
]

text-shows_breach : (res : Sent) → is_text res.detail ≡ true → is_some (shows_breach res) ≡ true
unfolding shows_breach
text-shows_breach res h = elim (Bool-cases (res.status_code == 500)) [
  | inl error ↦ rw error (by_detail res.detail h)
  | inr other ↦ rw other refl
]
  where
    by_detail : (detail : DetailValue) → is_text detail ≡ true → is_some (says_breach detail) ≡ true
    by_detail (detail_text detail) h = refl
    by_detail detail_list h = absurd (cc)

-- Such replies can be counted and printed.
pub texts-print :
    (server : Server) (i n : ℕ)
    → ((j : ℕ) → HasText (server.inference j).1)
    → let results = send_all (replies_from server i n) in
      (countable results ≡ true) × (print_results results ≡ true)
unfolding replies_from print_results
texts-print server i zero texts = (refl, refl)
texts-print server i (suc n) texts =
    let res = send_request (request_name i) (server.inference i).0 (server.inference i).1 in
    let text =
      send_request-is_text (request_name i) (server.inference i).0 (server.inference i).1
        (texts i) in
    let (counts, prints) = texts-print server (suc i) n texts in
    (rw (text-can_count res text) counts, rw (text-shows_breach res text) prints)
