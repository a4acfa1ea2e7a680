-- ===== src/Reviews/Pending.antt =====
-- `pending_reviews` of app/routers/reviews.py, page by page.
use ticket_triage.Base.{ℕ, ◌+◌, ◌≡◌, refl, List, [], ◌∷◌, ◌++◌, length, select, arith}
use ticket_triage.Table.{order_by, insert_by}
use ticket_triage.Model.{Ticket, Db}
use ticket_triage.Tickets.{ticket_list_item}
use ticket_triage.Base.Pages.{page-append, length-page}
use ticket_triage.Reviews.{correctable, pending_reviews}

length-insert_by :
    {A : Type 0} (key : A → ℕ) (x : A) (rows : List A)
    → length (insert_by key x rows) ≡ length rows + 1
unfolding insert_by
length-insert_by key x [] = omega arith
length-insert_by key x (y ∷ ys) = ground (arith, length-insert_by key x ys)

length-order_by :
    {A : Type 0} (key : A → ℕ) (rows : List A) → length (order_by key rows) ≡ length rows
unfolding order_by
length-order_by key [] = refl
length-order_by key (x ∷ xs) =
    omega (arith, length-insert_by key x (order_by key xs), length-order_by key xs)

-- Paging through the pending reviews loses and repeats none: two pages, the second at the offset where
-- the first ends, are together the page of both limits; both state the same total; and the page of
-- that limit from the start has exactly as many tickets.
pub pending_reviews-append :
    (a b offset : ℕ) (db : Db)
    → ((pending_reviews a offset db).tickets ++ (pending_reviews b (offset + a) db).tickets
        ≡ (pending_reviews (a + b) offset db).tickets)
      × ((pending_reviews a offset db).total ≡ (pending_reviews b (offset + a) db).total)
      × (length (pending_reviews (pending_reviews a offset db).total 0 db).tickets
          ≡ (pending_reviews a offset db).total)
unfolding pending_reviews
pending_reviews-append a b offset db =
    let pending = select (λ (t : Ticket). correctable t.status) db.tickets in
    let found = order_by (λ (t : Ticket). t.created_at) pending in
    (
      page-append (ticket_list_item db) a b offset found,
      refl,
      length-page (ticket_list_item db) found _
          (length-order_by (λ (t : Ticket). t.created_at) pending),
    )
