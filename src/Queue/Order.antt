-- ===== src/Queue/Order.antt =====
-- `order_by(Job.next_run_at, Job.id)`.
use market_relay.Prelude.{List, [], ◌∷◌, Bool, ◌&&◌, ◌||◌, if◌then◌else◌, ◌==◌, leb, ltb, nat_eq}
use market_relay.Jobs.{Job}

unfoldable pub due_before : Job → Job → Bool
due_before a b =
    ltb a.next_run_at b.next_run_at || (a.next_run_at == b.next_run_at && leb a.id b.id)

unfoldable pub insert_due : Job → List Job → List Job
unfolding due_before
insert_due job [] = job ∷ []
insert_due job (x ∷ xs) =
    let rest = insert_due job xs in if due_before job x then job ∷ x ∷ xs else x ∷ rest

unfoldable pub sort_due : List Job → List Job
unfolding insert_due
sort_due [] = []
sort_due (job ∷ jobs) = insert_due job (sort_due jobs)
