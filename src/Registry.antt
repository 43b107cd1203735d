-- ===== src/Registry.antt =====
-- engine/include/engine/symbol/symbol_registry.hpp and engine/src/symbol/symbol_registry.cpp: the
-- symbols that are subscribed, each with its slot, client, matching engine and inbox. A block under
-- `mutex_` is one step; `precision` is what the lookup returns (no negative decimals), and `now` the
-- reading of the steady clock when the client is constructed. `std::thread` is not modelled: `running`
-- is whether the thread of a symbol has been asked to stop, and a `join` returns.
pub mod Callbacks
pub mod Delivery
pub mod Orders
pub mod Keys
pub mod Counts
pub mod Used
pub mod History
pub mod Slots
pub mod Pool
pub mod Inbox
pub mod Routing
pub mod Timeout
pub mod Shutdown
mod Tests
use real_time_paper_trading.Base.{
  ℕ, suc, ◌+◌, ◌-◌, ◌%◌, ◌^◌, Bool, true, false, not, ◌&&◌, ◌||◌, Option, none, some, List, [], ◌∷◌,
  ◌++◌, ltb, ◌==◌, if◌then◌else◌, length, Text,
}
use real_time_paper_trading.Base.Assoc.{lookup, erase, emplace, assign}
use real_time_paper_trading.Ticks.{Price, Quantity, price_scale_supports, quantity_scale_supports}
use real_time_paper_trading.Book.{BookSide, bid, ask, OrderBook}
use real_time_paper_trading.Matching.{OrderType, Fill, MatchingEngine, new_engine}
use real_time_paper_trading.Client.{Client, same_text}
use real_time_paper_trading.SharedMemory.{
  SharedMemorySegment, Claim, slot_at, no_slot, symbol_too_long, claim_slot, release_slot,
}

-- The decimals of a pair, which are not negative.
pub record SymbolPrecision : Type 0 where
  pub pair_decimals : ℕ
  pub lot_decimals : ℕ

-- The texts of `reason`, one constructor for each.
pub data Reason : Type 0 where
  empty_reason unknown_precision unsupported_precision claim_failed pool_exhausted : Reason
  not_subscribed : Reason

pub record SubscribeResult : Type 0 where
  pub ok : Bool
  pub reason : Reason

pub data Kind : Type 0 where
  place cancel : Kind

-- `promise` tells the promises of the requests apart.
pub record OrderRequest : Type 0 where
  pub kind : Kind
  pub side : BookSide
  pub type : OrderType
  pub price : Price
  pub size : Quantity
  pub order_id : ℕ
  pub promise : ℕ

-- `refcount` holds the 32 bits of an `int`. The book is the client's.
pub record Entry : Type 0 where
  pub refcount : ℕ
  pub slot : ℕ
  pub client : Client
  pub matching_engine : MatchingEngine
  pub inbox : List OrderRequest
  pub running : Bool

pub record SymbolRegistry : Type 0 where
  pub entries : List (Text × Entry)
  pub order_id_to_symbol : List (ℕ × Text)
  pub next_order_id : ℕ
  pub next_promise : ℕ
  pub shared_memory : SharedMemorySegment
  pub fill_queue : List Fill

-- `++` and `--` of an `int`. An overflow, which C++ leaves undefined, wraps around.
unfoldable pub incremented : ℕ → ℕ
incremented n = (n + 1) % 2 ^ 32

unfoldable pub decremented : ℕ → ℕ
decremented n = (n + 2 ^ 32 - 1) % 2 ^ 32

-- Whether an `int` is above 0.
unfoldable pub is_positive : ℕ → Bool
is_positive n = ltb 0 n && ltb n (2 ^ 31)

unfoldable pub subscribed_ok : SubscribeResult
subscribed_ok = record { ok = true; reason = empty_reason }

unfoldable pub refused : Reason → SubscribeResult
refused reason = record { ok = false; reason = reason }

unfoldable pub empty_book : Text → OrderBook
empty_book key = record {
  symbol = key;
  bids = record { side = bid; levels = [] };
  asks = record { side = ask; levels = [] };
  last_seq = 0;
  last_check_sum = 0;
}

unfoldable pub new_client : Text → SymbolPrecision → ℕ → Client
new_client key precision now = record {
  symbol = key;
  book = empty_book key;
  has_on_delta = true;
  has_on_snapshot = true;
  has_on_tick = true;
  has_socket = false;
  price_decimals = precision.pair_decimals;
  quantity_decimals = precision.lot_decimals;
  deltas_since_snapshot = 0;
  last_snapshot_time = now;
  events = [];
}

unfoldable pub new_entry : Text → ℕ → SymbolPrecision → ℕ → Entry
new_entry key slot precision now = record {
  refcount = 1;
  slot = slot;
  client = new_client key precision now;
  matching_engine = new_engine key true;
  inbox = [];
  running = true;
}

-- The first and the third block of `subscribe`: `none` where there is no entry.
unfoldable pub join_entry : SymbolRegistry → Text → Option SymbolRegistry
join_entry r key = elim (lookup same_text key r.entries) [
  | none ↦ none
  | some entry ↦ some (record r {
    entries =
        assign same_text key (record entry { refcount = incremented entry.refcount }) r.entries;
  })
]

-- The rest of `subscribe`, where no entry was found under the second lock.
unfoldable pub create_entry :
    SymbolRegistry → Text → SymbolPrecision → ℕ → SymbolRegistry × SubscribeResult
unfolding subscribed_ok refused
create_entry r key precision now =
    let (shared_memory, claim) = claim_slot r.shared_memory key in
    let r' = record r { shared_memory = shared_memory } in
    elim claim [
      | symbol_too_long ↦ (r', refused claim_failed)
      | no_slot ↦ (r', refused pool_exhausted)
      | slot_at slot ↦ (
        record r' { entries = emplace same_text key (new_entry key slot precision now) r.entries },
        subscribed_ok,
      )
    ]

-- `subscribe` from the lookup of the precision on, under the second lock.
unfoldable pub subscribe_locked :
    SymbolRegistry → Text → Option SymbolPrecision → ℕ → SymbolRegistry × SubscribeResult
unfolding subscribed_ok refused
subscribe_locked r key none now = (r, refused unknown_precision)
subscribe_locked r key (some precision) now =
    if not (price_scale_supports precision.pair_decimals)
      || not (quantity_scale_supports precision.lot_decimals)
    then (r, refused unsupported_precision)
    else (elim (join_entry r key) [
      | some r' ↦ (r', subscribed_ok)
      | none ↦ create_entry r key precision now
    ])

-- `subscribe` where no other thread comes between its two blocks.
unfoldable pub subscribe :
    SymbolRegistry → Text → Option SymbolPrecision → ℕ → SymbolRegistry × SubscribeResult
unfolding subscribed_ok
subscribe r key precision now = elim (join_entry r key) [
  | some r' ↦ (r', subscribed_ok)
  | none ↦ subscribe_locked r key precision now
]

-- The block of `unsubscribe`, and the entry that is to be torn down.
unfoldable pub leave_entry : SymbolRegistry → Text → SymbolRegistry × SubscribeResult × Option Entry
unfolding subscribed_ok refused
leave_entry r key = elim (lookup same_text key r.entries) [
  | none ↦ (r, refused not_subscribed, none)
  | some entry ↦
      (if is_positive (decremented entry.refcount)
        then (
          record r {
            entries =
                assign same_text key (record entry { refcount = decremented entry.refcount })
                  r.entries;
          },
          subscribed_ok,
          none,
        )
        else (
          record r { entries = erase same_text key r.entries },
          subscribed_ok,
          some (record entry { refcount = decremented entry.refcount; running = false }),
        ))
]

-- After the lock: the thread is joined and the slot released.
unfoldable pub tear_down : SymbolRegistry → Option Entry → SymbolRegistry
tear_down r none = r
tear_down r (some entry) = record r { shared_memory = release_slot r.shared_memory entry.slot }

unfoldable pub unsubscribe : SymbolRegistry → Text → SymbolRegistry × SubscribeResult
unsubscribe r key =
    let (r', result, extracted) = leave_entry r key in (tear_down r' extracted, result)
