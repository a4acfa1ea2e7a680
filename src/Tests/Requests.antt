-- ===== src/Tests/Requests.antt =====
-- Runs of the API's requests on the sample data.
use ticket_triage.Base.{
  ◌↔◌, Bool, ◌&&◌, take, drop, map, length, select, true, ℕ, ◌+◌, ◌≡◌, ◌≢◌, refl, ◌⊎◌, false, some,
  none, List, [], ◌∷◌, All,
}
use ticket_triage.Text.{Text, codes, trim, text_eq}
use ticket_triage.Labels.{billing, bug, p1, p2, negative, neutral, web, Status, triaged, ReplyState}
use ticket_triage.Table
use ticket_triage.Model.{RoutingRule, Ticket, Db, ticket_of, correction_of}
use ticket_triage.Routing.{
  resolve_queue, load_rules, RuleIn, number_rules, RulesOut, get_rules, put_rules, valid_rule,
  valid_rules, queue_chars, replace_rules, rules_out,
}
use ticket_triage.Routing.FirstMatch.{Routes, resolve_queue_iff}
use ticket_triage.Routing.Replace.{Growing, get_rules-put_rules}
use ticket_triage.Errors.{error, not_found, invalid_state, internal_error, validation_error}
use ticket_triage.Tickets.{Stamp, NewTicket, ingested, ingest_ticket, known}
use ticket_triage.Tickets.Ingest.{Stored, ingest_ticket-Stored}
use ticket_triage.Reviews.{CorrectRequest, approve_ticket, correct_ticket}
use ticket_triage.Reviews.Approve.{Refused, Accepted, approve_ticket-branches}
use ticket_triage.Reviews.Correct.{
  IsPending, correction_id, gold_row, corrected_row, correct_ticket-branches,
}
use ticket_triage.Reply.{edit_reply_draft, approve_reply_draft, discard_reply_draft}
use ticket_triage.Reply.Review.{
  IsTrimmed, Branches, approve_or_discard-Branches, edit_reply_draft-Branches,
}
use ticket_triage.Counts.{count_if}
use ticket_triage.Tickets.{ticket_list_item}
use ticket_triage.Tickets.Listing.{TicketQuery, matches, ticket_page}
use ticket_triage.Tickets.Order.{Descending, IsWanted, ticket_page-Listing}
use ticket_triage.Table.Laws.{Ascending}
use ticket_triage.Export.{ExportRow, export_rows}
use ticket_triage.Export.Gold.{is_decided, IsGold, export_rows-IsGold}
use ticket_triage.Migrations.Init.{rules_def}
use ticket_triage.Migrations.Rows.{rule_values}
use ticket_triage.Migrations.Rules.{IsAdmitted, put_rules-IsAdmitted}
use ticket_triage.Tests.{settings_a, rule_money, db_a, db_a-Lifecycle}

abbrev stamp_n : Stamp
stamp_n = record { id = codes "n"; now = 9 }

abbrev new_ticket : Text → NewTicket
new_ticket external_id = record {
  external_id = external_id;
  channel = web;
  sender = codes "bob";
  subject = codes "Refund";
  body = codes "Please refund me.";
}

-- Another request that stores the same external id first.
abbrev rival : Db → Db
rival db =
    (ingest_ticket (λ x. x) (record { id = codes "m"; now = 8 }) (new_ticket (codes "xn")) db).1

ingest_ticket-Stored_example :
    ((t : Ticket) × (known (codes "xn") db_a ≡ some t)
      × (ingest_ticket rival stamp_n (new_ticket (codes "xn")) db_a ≡ (ingested t false, db_a)))
    ⊎ ((known (codes "xn") db_a ≡ none)
        × Stored stamp_n
            (new_ticket (codes "xn"))
            (rival db_a)
            (ingest_ticket rival stamp_n (new_ticket (codes "xn")) db_a))
ingest_ticket-Stored_example = ingest_ticket-Stored rival stamp_n (new_ticket (codes "xn")) db_a

resolve_queue_iff_example :
    (resolve_queue (rule_money ∷ []) billing p2 negative (codes "general") ≡ codes "money"
      → Routes billing p2 negative (codes "general") (rule_money ∷ []) (codes "money"))
    × (Routes billing p2 negative (codes "general") (rule_money ∷ []) (codes "money")
        → resolve_queue (rule_money ∷ []) billing p2 negative (codes "general") ≡ codes "money")
resolve_queue_iff_example =
    resolve_queue_iff (rule_money ∷ []) billing p2 negative (codes "general") (codes "money")

abbrev new_rules : List RuleIn
new_rules =
    record { intent = some bug; priority = some p1; sentiment = none; queue = codes "urgent" }
    ∷ record { intent = none; priority = none; sentiment = some negative; queue = codes "care" }
    ∷ []

abbrev ids : ℕ → ℕ
ids n = n + 10

abbrev new_db : Db
new_db = record db_a { routing_rules = number_rules ids 1 new_rules }

abbrev rules_shown : RulesOut
rules_shown = record { rules = number_rules ids 1 new_rules; default_queue = codes "general" }

put_rules_run : put_rules ids settings_a new_rules db_a ≡ some (rules_shown, new_db)
unfolding put_rules valid_rules valid_rule queue_chars rules_out replace_rules number_rules
    load_rules Table.order_by Table.insert_by
put_rules_run = refl

get_rules-put_rules_example :
    (get_rules settings_a new_db ≡ rules_shown)
    × (rules_shown
        ≡ record { rules = number_rules ids 1 new_rules; default_queue = settings_a.default_queue })
    × (new_db ≡ record db_a { routing_rules = number_rules ids 1 new_rules })
get_rules-put_rules_example = get_rules-put_rules ids settings_a new_rules db_a put_rules_run

put_rules-IsAdmitted_example :
    All (λ (r : RoutingRule). IsAdmitted rules_def (rule_values r)) new_db.routing_rules
    × Growing new_db.routing_rules
put_rules-IsAdmitted_example = put_rules-IsAdmitted ids settings_a new_rules db_a put_rules_run

approve_ticket-branches_example :
    ((ticket_of (codes "b") db_a ≡ none)
      × Refused not_found db_a (approve_ticket 9 (codes "b") db_a))
    ⊎ ((t : Ticket) × (ticket_of (codes "b") db_a ≡ some t)
        × (((t.status ≢ triaged) × Refused invalid_state db_a (approve_ticket 9 (codes "b") db_a))
            ⊎ ((t.status ≡ triaged)
                × Accepted
                    (codes "b")
                    (record t { status = Status.approved; updated_at = 9 })
                    db_a
                    (approve_ticket 9 (codes "b") db_a))))
approve_ticket-branches_example = approve_ticket-branches 9 (codes "b") db_a db_a-Lifecycle

abbrev gold : CorrectRequest
gold = record { intent = bug; priority = p1; sentiment = neutral; note = none }

correct_ticket-branches_example :
    ((ticket_of (codes "b") db_a ≡ none)
      × Refused not_found db_a (correct_ticket settings_a (codes "g") 9 gold (codes "b") db_a))
    ⊎ ((t : Ticket) × (ticket_of (codes "b") db_a ≡ some t)
        × (((¬ IsPending t.status)
              × Refused invalid_state db_a
                  (correct_ticket settings_a (codes "g") 9 gold (codes "b") db_a))
            ⊎ (IsPending t.status
                × ((Refused internal_error db_a
                        (correct_ticket settings_a (codes "g") 9 gold (codes "b") db_a)
                      × (Table.contains correction_id (codes "g") db_a.corrections ≡ true))
                    ⊎ (Accepted
                          (codes "b")
                          (corrected_row settings_a 9 gold db_a t)
                          db_a
                          (correct_ticket settings_a (codes "g") 9 gold (codes "b") db_a)
                        × (correction_of
                              (codes "b")
                              (correct_ticket settings_a (codes "g") 9 gold (codes "b") db_a).1
                            ≡ some (gold_row (codes "g") 9 (codes "b") gold)))))))
correct_ticket-branches_example =
    correct_ticket-branches settings_a (codes "g") 9 gold (codes "b") db_a db_a-Lifecycle

approve_or_discard-Branches_example :
    Branches
      (λ d. record d { state = ReplyState.approved; updated_at = 9 })
      (codes "b")
      db_a
      (approve_reply_draft 9 (codes "b") db_a)
    × Branches
        (λ d. record d { state = ReplyState.discarded; updated_at = 9 })
        (codes "b")
        db_a
        (discard_reply_draft 9 (codes "b") db_a)
approve_or_discard-Branches_example = approve_or_discard-Branches 9 (codes "b") db_a db_a-Lifecycle

edit_reply_draft-Branches_example :
    ((¬ IsTrimmed 2000 (trim (codes " Hello ")))
      × ((message : Text) × (edit_reply_draft 9 (codes " Hello ") (codes "b") db_a
            ≡ (error validation_error message, db_a))))
    ⊎ (IsTrimmed 2000 (trim (codes " Hello "))
        × Branches
            (λ d. record d { body = trim (codes " Hello "); updated_at = 9 })
            (codes "b")
            db_a
            (edit_reply_draft 9 (codes " Hello ") (codes "b") db_a))
edit_reply_draft-Branches_example =
    edit_reply_draft-Branches 9 (codes " Hello ") (codes "b") db_a db_a-Lifecycle

export_rows-IsGold_example :
    Ascending (λ (r : ExportRow). r.at) (export_rows (some 1) db_a)
    × All (IsGold (some 1) db_a) (export_rows (some 1) db_a)
    × (length (export_rows none db_a) ≡ length (select is_decided db_a.tickets))
export_rows-IsGold_example = export_rows-IsGold (some 1) db_a db_a-Lifecycle

abbrev needs_review : TicketQuery
needs_review = record { status = some triaged; queue = none; intent = none; priority = none }

ticket_page-Listing_example :
    (ts : List Ticket) × Descending ts
    × ((t : Ticket) → (matches needs_review db_a t ≡ true) ↔ IsWanted needs_review db_a t)
    × ((p : Ticket → Bool)
        → count_if p ts ≡ count_if (λ t. matches needs_review db_a t && p t) db_a.tickets)
    × ((limit offset : ℕ)
        → ((ticket_page needs_review limit offset db_a).tickets
            ≡ map (ticket_list_item db_a) (take limit (drop offset ts)))
          × ((ticket_page needs_review limit offset db_a).total ≡ length ts))
ticket_page-Listing_example = ticket_page-Listing needs_review db_a
