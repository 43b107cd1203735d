-- ===== src/Registry/Tests.antt =====
-- Instances of the laws of the registry, and runs of its operations.
use real_time_paper_trading.Base.{All}
use real_time_paper_trading.Base.{
  ℕ, ◌+◌, ◌-◌, ◌≤◌, ◌<◌, ◌^◌, ◌≡◌, refl, true, ◌&&◌, none, some, List, [], ◌∷◌, ◌++◌, ltb, ◌==◌,
  if◌then◌else◌, length, drop, pos, arith, Text,
}
use real_time_paper_trading.Base.Assoc.{lookup}
use real_time_paper_trading.Book.{bid}
use real_time_paper_trading.Matching.{limit, reject, order_timed_out, order_not_found}
use real_time_paper_trading.SharedMemory.{new_segment, new_slot}
use real_time_paper_trading.Client.{Event, same_text}
use real_time_paper_trading.Registry.{
  SymbolPrecision, SubscribeResult, Entry, SymbolRegistry, new_entry, subscribe, subscribe_locked,
  unsubscribe,
}
use real_time_paper_trading.Registry.Callbacks.{Feed}
use real_time_paper_trading.Registry.Orders.{
  send_place, finish_place, drained_answer, place_order, cancel_order,
}
use real_time_paper_trading.Registry.Counts.{count_of, IsUsed, subscribe_counts, unsubscribe_counts}
use real_time_paper_trading.Registry.History.{
  subscribing, unsubscribing, Call, call_all, joins, leaves, call_all_balanced,
}
use real_time_paper_trading.Registry.Slots.{HasSlots, flags}
use real_time_paper_trading.Registry.Shutdown.{destroy, destroy_lem}
use real_time_paper_trading.Registry.Pool.{registry-HasSlots}
use real_time_paper_trading.Registry.Routing.{executed, place_order_lem}
use real_time_paper_trading.Registry.Timeout.{timed_out_order_executed}

abbrev key : Text
key = b'X' ∷ []

abbrev empty : SymbolRegistry
empty = record {
  entries = [];
  order_id_to_symbol = [];
  next_order_id = 1;
  next_promise = 0;
  shared_memory = new_segment 1000;
  fill_queue = [];
}

abbrev precision : SymbolPrecision
precision = record { pair_decimals = 1; lot_decimals = 8 }

abbrev entry : Entry
entry = new_entry key 0 precision 0

abbrev registry : SymbolRegistry
registry = record empty { entries = (key, entry) ∷ [] }

abbrev clock : ℕ → ℕ
clock n = n

registry-IsUsed : (n : ℕ) → n + 1 < 2 ^ 31 → IsUsed n registry
unfolding new_entry
registry-IsUsed n h = record { room = h; used = ((omega arith, omega (arith, h)), tt) }

subscribe_counts_example :
    let counts = λ (c : SymbolRegistry × SubscribeResult). count_of c.0 key ≡ (
      if c.1.ok && same_text key key then count_of registry key + 1 else count_of registry key) in
    counts (subscribe registry key (some precision) 5)
    × counts (subscribe_locked registry key (some precision) 5)
    × (1 ≤ count_of registry key → (subscribe registry key (some precision) 5).1.ok ≡ true)
subscribe_counts_example =
    subscribe_counts registry key (some precision) 5 key (registry-IsUsed 1 (omega arith))

unsubscribe_counts_example :
    let (r', res) = unsubscribe registry key in
    (res.ok ≡ ltb 0 (count_of registry key))
    × (count_of r' key
        ≡ (if same_text key key then count_of registry key - 1 else count_of registry key))
unsubscribe_counts_example = unsubscribe_counts registry key key (registry-IsUsed 0 (omega arith))

abbrev calls : List Call
calls = subscribing key (some precision) 0 ∷ subscribing key none 0 ∷ unsubscribing key ∷ []

call_all_balanced_example :
    count_of (call_all empty calls) key + leaves key empty calls
    ≡ count_of empty key + joins key empty calls
call_all_balanced_example =
    call_all_balanced key empty calls (record { room = omega arith; used = tt })

empty-HasSlots : HasSlots empty
unfolding new_segment new_slot
empty-HasSlots = record { distinct = tt; owned = tt; counted = refl }

registry-HasSlots_example :
    HasSlots (subscribe empty key (some precision) 0).0
    × HasSlots (subscribe_locked empty key (some precision) 0).0
    × HasSlots (unsubscribe empty key).0
registry-HasSlots_example = registry-HasSlots empty key (some precision) 0 empty-HasSlots

destroy_example : All (λ f. f ≡ 0) (flags (destroy (call_all empty calls)).slots)
destroy_example = destroy_lem empty calls empty-HasSlots

found : lookup same_text key registry.entries ≡ some entry
unfolding lookup same_text
found = refl

place_order_example :
    let (r', result) = place_order clock registry key bid limit (pos 100) (pos 5) in
    let done = executed clock registry key entry bid limit (pos 100) (pos 5) in
    (result ≡ done.1)
    × (lookup same_text key r'.entries
        ≡ some (record entry { matching_engine = done.0; inbox = [] }))
    × (r'.fill_queue ≡ [] ++ drop (length entry.matching_engine.fills) done.0.fills)
    × (lookup ◌==◌ 1 r'.order_id_to_symbol
        ≡ (if done.1.accepted then some key else lookup ◌==◌ 1 []))
unfolding new_entry
place_order_example = place_order_lem clock registry key entry bid limit (pos 100) (pos 5) found tt

unknown : lookup ◌==◌ 1 registry.order_id_to_symbol ≡ none
unfolding lookup
unknown = refl

timed_out_order_executed_example :
    let (waiting, result) =
      finish_place (send_place registry key bid limit (pos 100) (pos 5)).0 key 1 none in
    let later = (drained_answer clock waiting key 0).0 in
    (result ≡ reject order_timed_out)
    × (lookup same_text key later.entries
        ≡ some (record entry {
          matching_engine = (executed clock registry key entry bid limit (pos 100) (pos 5)).0;
          inbox = [];
        }))
    × (cancel_order clock later 1 ≡ (later, reject order_not_found))
timed_out_order_executed_example =
    timed_out_order_executed clock registry key entry bid limit (pos 100) (pos 5) found unknown

abbrev feed : Feed
feed = record { slot = new_slot; engine = entry.matching_engine }

abbrev stamp : Event → ℕ
stamp ev = 7
