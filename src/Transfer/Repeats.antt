-- ===== src/Transfer/Repeats.antt =====
-- Repeating a dispatch or a receipt changes nothing more.
use mathlib.Core.Path.{subst}
use flowcart.Prelude.{ℕ, String, ◌≡◌, inl, inr, arith, ok, Bool-cases}
use flowcart.Database.{Db, Clock}
use flowcart.Transfer.Reading.{database_error, TransferView, transfer_item_ids}
use flowcart.Transfer.Shipping.{
  is_completed, is_dispatched_with, dispatch, destination_ids, receive,
}
use flowcart.Transfer.Outcomes.{
  get_transfer-Reads, lock_inventory-Reads, scan_transfer-Reads, scan_transfer-found,
  dispatch_pending-IsShipped, receive_in_transit-IsCompleted,
}
use flowcart.Transfer.Redelivery.{
  relock, dispatch_replay, receive_replay, shipped-read, shipped-IsKept, shipped-is_dispatched,
  completed-read, completed-IsKept, completed-is_completed,
}

-- On the tables that a dispatch has left, the same key, at any time and by whichever user, returns
-- the same transfer again and leaves the tables as they are.
pub dispatch_again :
    (clock later : Clock) (o user late id : ℕ) (key : String) (db after : Db) (view : TransferView)
    → dispatch clock o user id key db ≡ ok (view, after)
    → dispatch later o late id key after ≡ ok (view, after)
unfolding dispatch
dispatch_again clock later o user late id key db after view h = elim (get_transfer-Reads o id db) [
  | inl (x, e) ↦ absurd (ground (arith, e, h))
  | inr (initial, e) ↦ elim (lock_inventory-Reads o (transfer_item_ids initial.items) db) [
    | inl (x, f) ↦ absurd (ground (arith, e, f, h))
    | inr (u, f) ↦ elim (scan_transfer-Reads database_error o id db) [
      | inl (x, g) ↦ absurd (ground (arith, e, f, g, h))
      | inr (found, g) ↦ elim (Bool-cases (is_dispatched_with key found.transfer)) [
        | inl b ↦
            let same : db ≡ after = ground (arith, e, f, g, b, h) in
            let again : dispatch later o late id key db ≡ ok (view, after) =
              ground (arith, e, f, g, b, h) in
            subst (λ d. dispatch later o late id key d ≡ ok (view, after)) same again
        | inr b ↦
            let s =
              dispatch_pending-IsShipped clock o user id key db found view after
                (scan_transfer-found database_error o id db db found g)
                (ground (arith, e, f, g, b, h)) in
            let read = shipped-read clock o user id key db after view s in
            dispatch_replay later o late id key after after view read
              (relock o id transfer_item_ids db after initial view
                (shipped-IsKept clock o user id key db after view s) e read f)
              (shipped-is_dispatched clock o user id key db after view s)
      ]
    ]
  ]
]

-- On the tables that a receipt has left, another one, at any time, by whichever user and under any
-- key, returns the same transfer again and leaves the tables as they are.
pub receive_again :
    (clock later : Clock) (o user late id : ℕ) (key other : String) (db after : Db)
    (view : TransferView)
    → receive clock o user id key db ≡ ok (view, after)
    → receive later o late id other after ≡ ok (view, after)
unfolding receive
receive_again clock later o user late id key other db after view h =
    elim (get_transfer-Reads o id db) [
      | inl (x, e) ↦ absurd (ground (arith, e, h))
      | inr (initial, e) ↦ elim (lock_inventory-Reads o (destination_ids initial.items) db) [
        | inl (x, f) ↦ absurd (ground (arith, e, f, h))
        | inr (u, f) ↦ elim (scan_transfer-Reads database_error o id db) [
          | inl (x, g) ↦ absurd (ground (arith, e, f, g, h))
          | inr (found, g) ↦ elim (Bool-cases (is_completed (found.transfer).status)) [
            | inl b ↦
                let same : db ≡ after = ground (arith, e, f, g, b, h) in
                let again : receive later o late id other db ≡ ok (view, after) =
                  ground (arith, e, f, g, b, h) in
                subst (λ d. receive later o late id other d ≡ ok (view, after)) same again
            | inr b ↦
                let s =
                  receive_in_transit-IsCompleted clock o user id key db found view after
                    (scan_transfer-found database_error o id db db found g)
                    (ground (arith, e, f, g, b, h)) in
                let read = completed-read clock o user id key db after view s in
                receive_replay later o late id other after after view read
                  (relock o id destination_ids db after initial view
                    (completed-IsKept clock o user id key db after view s) e read f)
                  (completed-is_completed clock o user id key db after view s)
          ]
        ]
      ]
    ]
