-- ===== src/Keeper/Tracks.antt =====
-- crates/limit-keeper/src/book.rs beside contracts/order-escrow/src/lib.rs: the book shows exactly the
-- open orders that the escrow has stored.
use stellar_dex_agg.Prelude.{
  ℕ, ◌≡◌, ◌∙◌, refl, sym, subst, Bool-cases, inl, inr, true, Option, none, some, List, [], ◌∷◌, ℤ,
  pos, ◌==◌, ◌==ℤ◌, ◌-ℤ◌, if◌then◌else◌, Dict, lookup, insert, lookup-insert, ==→eq,
}
use stellar_dex_agg.Escrow.Storage.{LimitOrder, DcaOrder, Event, is_open}
use stellar_dex_agg.Escrow.Limit.Filling.{filled_by}
use stellar_dex_agg.Escrow.Dca.{chunk_of}
use stellar_dex_agg.Escrow.Dca.Filling.{filled_at}
use stellar_dex_agg.Keeper.Book.{
  limit, dca, OpenOrder, OpenOrderBook, empty, put, apply, refilled_entry,
}
use stellar_dex_agg.Keeper.Events.{done, failed, parse_escrow_event, encode}

-- What the book shows of an order.
abbrev pub limit_entry : ℕ → LimitOrder → OpenOrder
limit_entry id o = record {
  kind = limit;
  order_id = id;
  owner = o.owner;
  token_in = o.token_in;
  token_out = o.token_out;
  amount_in_remaining = o.amount_in_remaining;
  limit_out_per_in_e7 = o.limit_out_per_in_e7;
  expires_ledger = o.expires_ledger;
  chunk_amount = none;
  next_executable_ledger = none;
}

abbrev pub dca_entry : ℕ → DcaOrder → OpenOrder
dca_entry id o = record {
  kind = dca;
  order_id = id;
  owner = o.owner;
  token_in = o.token_in;
  token_out = o.token_out;
  amount_in_remaining = o.amount_in_remaining;
  limit_out_per_in_e7 = o.min_out_per_in_e7;
  expires_ledger = o.expires_ledger;
  chunk_amount = some o.chunk_amount;
  next_executable_ledger = some o.next_executable_ledger;
}

abbrev pub shown_limit : ℕ → Option LimitOrder → Option OpenOrder
shown_limit id none = none
shown_limit id (some o) = if is_open o.status then some (limit_entry id o) else none

abbrev pub shown_dca : ℕ → Option DcaOrder → Option OpenOrder
shown_dca id none = none
shown_dca id (some o) = if is_open o.status then some (dca_entry id o) else none

pub record Tracks (book : OpenOrderBook) (orders : Dict LimitOrder) (dca_orders : Dict DcaOrder)
    : Type 0 where
  pub limits : (id : ℕ) → book limit id ≡ shown_limit id (lookup id orders)
  pub dcas : (id : ℕ) → book dca id ≡ shown_dca id (lookup id dca_orders)

-- The book after an event, as the keeper's loop applies it.
abbrev observe_event : Event → OpenOrderBook → OpenOrderBook
observe_event e book = elim (parse_escrow_event (encode e)) [
  | failed ↦ book
  | done parsed ↦ elim parsed [ none ↦ book | some event ↦ apply event book ]
]

-- The book after all events, which are stored the newest first.
abbrev pub replay : List Event → OpenOrderBook
replay [] = empty
replay (e ∷ older) = observe_event e (replay older)

module _ (book : OpenOrderBook) (orders : Dict LimitOrder) (dca_orders : Dict DcaOrder)
    (tracks : Tracks book orders dca_orders) where
  pub put-limit-Tracks :
      (id : ℕ) (o : LimitOrder) (entry : Option OpenOrder)
      → entry ≡ shown_limit id (some o)
      → Tracks (put limit id entry book) (insert id o orders) dca_orders
  put-limit-Tracks id o entry e = record {
    limits = λ k. elim (Bool-cases (k == id)) [
      | inl same ↦
          rw (lookup-insert k id o orders, same)
            (subst (λ i. entry ≡ shown_limit i (some o)) (sym (==→eq k id same)) e)
      | inr different ↦ rw (lookup-insert k id o orders, different) (tracks.limits k)
    ];
    dcas = tracks.dcas;
  }

  pub put-dca-Tracks :
      (id : ℕ) (o : DcaOrder) (entry : Option OpenOrder)
      → entry ≡ shown_dca id (some o)
      → Tracks (put dca id entry book) orders (insert id o dca_orders)
  put-dca-Tracks id o entry e = record {
    limits = tracks.limits;
    dcas = λ k. elim (Bool-cases (k == id)) [
      | inl same ↦
          rw (lookup-insert k id o dca_orders, same)
            (subst (λ i. entry ≡ shown_dca i (some o)) (sym (==→eq k id same)) e)
      | inr different ↦ rw (lookup-insert k id o dca_orders, different) (tracks.dcas k)
    ];
  }

  -- The entry after a fill shows the order after it.
  pub filled_limit-shown :
      (id : ℕ) (o : LimitOrder) (x : ℤ)
      → lookup id orders ≡ some o
      → is_open o.status ≡ true
      → (if o.amount_in_remaining -ℤ x ==ℤ pos 0
          then none
          else refilled_entry (o.amount_in_remaining -ℤ x) none (book limit id))
        ≡ shown_limit id (some (filled_by o x))
  filled_limit-shown id o x e was_open =
      let shown : book limit id ≡ some (limit_entry id o) =
        tracks.limits id ∙ rw (e, was_open) refl in
      elim (Bool-cases (o.amount_in_remaining -ℤ x ==ℤ pos 0)) [
        | inl closes ↦ rw closes refl
        | inr more ↦ rw (more, shown, was_open) refl
      ]

  pub filled_dca-shown :
      (id : ℕ) (o : DcaOrder) (current : ℕ)
      → lookup id dca_orders ≡ some o
      → is_open o.status ≡ true
      → (if o.amount_in_remaining -ℤ chunk_of o ==ℤ pos 0
          then none
          else refilled_entry
              (o.amount_in_remaining -ℤ chunk_of o)
              (some (filled_at o current).next_executable_ledger)
              (book dca id))
        ≡ shown_dca id (some (filled_at o current))
  filled_dca-shown id o current e was_open =
      let shown : book dca id ≡ some (dca_entry id o) = tracks.dcas id ∙ rw (e, was_open) refl in
      elim (Bool-cases (o.amount_in_remaining -ℤ chunk_of o ==ℤ pos 0)) [
        | inl closes ↦ rw closes refl
        | inr more ↦ rw (more, shown, was_open) refl
      ]
