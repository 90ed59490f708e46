-- ===== src/Tests/Risks.antt =====
-- Runs of the theorems on a risk engine.
use native.Mathlib.Decide.{ℕ_discrete}
use low_latency_trading_engi.Base.{
  List, length, u64_mod, ◌%◌, ◌+◌, [], ◌∷◌, ◌≡◌, ◌≤◌, ◌<◌, refl, none, some, true, false, arith, ap,
}
use low_latency_trading_engi.Base.Int.{ℤ, ◌+ℤ◌, ◌-ℤ◌, ◌≤ℤ◌, int64_max}
use low_latency_trading_engi.Base.Maps.{find, put, erase, sum_values}
use low_latency_trading_engi.Double.{pos, lt, eq, is_finite, positive_finite}
use low_latency_trading_engi.Order.{Order, buy, sell, limit}
use low_latency_trading_engi.RiskEngine.State.{
  RiskEngine, PositionKey, PositionKey-discrete, OrderRiskInfo, new_engine, state_corrupt_reason,
  set_reference_price, set_max_order_size, set_max_position, set_price_band_pct, resize, state_or,
  find_position, find_order, working, key_of,
}
use low_latency_trading_engi.RiskEngine.Arith.{
  can_add_signed, can_sub_signed, can_add_unsigned, Exact, can_add_sub_signed-Exact,
}
use low_latency_trading_engi.RiskEngine.Validate.{
  BandArithmetic, order_key, check_price, is_set, check_order_fields, check_buy, check_sell,
  validate, validate_against, validate_replace,
}
use low_latency_trading_engi.RiskEngine.Apply.{
  info_of, apply_resting, release, store_position, filled_position, reduce_order, apply_fill,
  apply_cancelled, on_order_resting, on_fill, on_order_cancelled,
}
use low_latency_trading_engi.RiskEngine.Ledger.{IsBalanced, reserved}
use low_latency_trading_engi.RiskEngine.Check.{
  matches_book, all_match, derive, counters_match, no_orphans, check_invariant,
}
use low_latency_trading_engi.RiskEngine.Check.Sound.{Tracks, check_invariant-counters}
use low_latency_trading_engi.OrderBook.State.{Book, new_book, get_order_count}
use low_latency_trading_engi.OrderBook.Levels.{add_order}
use low_latency_trading_engi.OrderBook.Edit.{get_order_by_id}
use low_latency_trading_engi.RiskEngine.Limits.{
  moved_by, on_order_resting-limit, on_fill-moves, on_order_cancelled-succeeds,
}
use low_latency_trading_engi.RiskEngine.Gate
use low_latency_trading_engi.RiskEngine.Run.{
  rests, fills, cancels, step, run, run-IsBalanced, run-corrupt,
}
use low_latency_trading_engi.Tests.Books.{order, book_program}

unfoldable risk_program : Unit {0}
unfolding matches_book all_match derive counters_match no_orphans check_invariant ℕ_discrete lt eq
    is_finite positive_finite find put erase sum_values PositionKey-discrete ◌+ℤ◌ ◌-ℤ◌
    set_reference_price set_max_order_size set_max_position set_price_band_pct resize can_add_signed
    can_sub_signed can_add_unsigned check_price is_set check_order_fields check_buy check_sell
    validate validate_against validate_replace apply_resting release store_position filled_position
    reduce_order apply_fill apply_cancelled on_order_resting on_fill on_order_cancelled step run
    Gate.admit Gate.guarded_step Gate.guarded_run
risk_program = tt

-- A band that is the price itself.
abbrev narrow : BandArithmetic
narrow = record { upper = λ pct ref. ref; lower = λ pct ref. ref }

-- A buyer of 5 by trader 7, of which 2 are filled.
abbrev buyer : Order
buyer = order 1 7 buy limit 100 5

abbrev buyer_info : OrderRiskInfo
buyer_info = record { trader_id = 7; symbol_id = 0; side = buy; reserved_qty = 5 }

unfoldable resting_engine : RiskEngine
resting_engine = run new_engine (rests buyer 5 ∷ [])

resting_engine-IsBalanced : IsBalanced resting_engine
unfolding resting_engine
resting_engine-IsBalanced = run-IsBalanced (rests buyer 5 ∷ []) (tt, tt)

run-IsBalanced_example : IsBalanced (run new_engine (rests buyer 5 ∷ fills 1 2 ∷ cancels 1 3 ∷ []))
run-IsBalanced_example =
    run-IsBalanced (rests buyer 5 ∷ fills 1 2 ∷ cancels 1 3 ∷ []) (tt, (omega arith, (tt, tt)))

on_fill-moves_example :
    let before = state_or (find_position resting_engine (key_of buyer_info)) in
    let e' = (on_fill resting_engine 1 2).0 in
    let after = state_or (find_position e' (key_of buyer_info)) in
    (after.position ≡ moved_by buy before.position 2)
    × (working buy after + 2 ≡ working buy before)
    × (working sell after ≡ working sell before)
    × (state_or (find_position e' (record { trader_id = 8; symbol_id = 0 }))
        ≡ state_or (find_position resting_engine (record { trader_id = 8; symbol_id = 0 })))
unfolding risk_program resting_engine
on_fill-moves_example =
    on_fill-moves resting_engine 1 2 buyer_info (record { trader_id = 8; symbol_id = 0 })
      resting_engine-IsBalanced refl refl
      λ same. omega (arith, ap (λ (k : PositionKey). k.trader_id) same)

on_order_cancelled-succeeds_example : (on_order_cancelled resting_engine 1 5).1 ≡ true
unfolding risk_program resting_engine
on_order_cancelled-succeeds_example =
    on_order_cancelled-succeeds resting_engine 1 5 buyer_info resting_engine-IsBalanced refl refl
      (omega arith) (omega arith)

on_order_resting-limit_example :
    let before = working buy (state_or (find_position new_engine (order_key buyer))) in
    let e' = (on_order_resting new_engine buyer 5).0 in
    (find_order new_engine 1 ≡ none)
    × (find_order e' 1 ≡ some (info_of buyer 5))
    × (0 < 5)
    × (find_order e' 2 ≡ find_order new_engine 2)
    × (working buy (state_or (find_position e' (order_key buyer))) ≡ before + 5)
    × (before + 5 ≤ new_engine.max_position)
unfolding risk_program
on_order_resting-limit_example =
    on_order_resting-limit new_engine buyer 5 2 refl λ same. omega (arith, same)

-- The reference price of symbol 0 is 100.
unfoldable priced_engine : RiskEngine
priced_engine = (set_reference_price new_engine 0 (pos 100)).0

-- Its position limit is 10; a buyer of 5 is taken twice, with a fill between, and a third one is not.
unfoldable small_engine : RiskEngine
small_engine = record priced_engine { max_position = 10 }

abbrev guarded_calls : List Gate.Call
guarded_calls =
    Gate.submits buyer 5
    ∷ Gate.fills 1 3
    ∷ Gate.submits (order 2 7 buy limit 100 5) 5
    ∷ Gate.submits (order 3 7 buy limit 100 5) 5
    ∷ Gate.cancels 1 2
    ∷ []

guarded_run-IsSafe_example :
    let st =
      state_or
        (find_position (Gate.guarded_run narrow small_engine guarded_calls) (key_of buyer_info)) in
    Gate.IsSafe small_engine.max_position st
    × (st.position ≤ℤ ℤ.pos small_engine.max_position)
    × ((ℤ.pos 0 -ℤ ℤ.pos small_engine.max_position) ≤ℤ st.position)
unfolding risk_program priced_engine small_engine
guarded_run-IsSafe_example =
    Gate.guarded_run-IsSafe narrow small_engine guarded_calls (key_of buyer_info) refl refl
      (omega arith) (tt, (omega arith, (tt, (tt, (tt, tt)))))

-- The third order was turned away.
guarded_outcome :
    state_or
      (find_position (Gate.guarded_run narrow small_engine guarded_calls) (key_of buyer_info))
    ≡ record { position = ℤ.pos 3; working_buy = 5; working_sell = 0 }
unfolding risk_program priced_engine small_engine
guarded_outcome = refl

abbrev corrupt_engine : RiskEngine
corrupt_engine = record new_engine { state_corrupt = true }

run-corrupt_example :
    (run corrupt_engine (rests buyer 5 ∷ []) ≡ corrupt_engine)
    × (validate narrow (run corrupt_engine (rests buyer 5 ∷ [])) buyer ≡ state_corrupt_reason)
    × (validate_replace narrow (run corrupt_engine (rests buyer 5 ∷ [])) 1 buyer
        ≡ state_corrupt_reason)
run-corrupt_example = run-corrupt narrow corrupt_engine (rests buyer 5 ∷ []) 1 buyer refl

can_add_sub_signed-Exact_example :
    Exact (int64_max +ℤ ℤ.pos 1) (can_add_signed int64_max (ℤ.pos 1))
    × Exact (int64_max -ℤ ℤ.pos 1) (can_sub_signed int64_max (ℤ.pos 1))
can_add_sub_signed-Exact_example = can_add_sub_signed-Exact int64_max (ℤ.pos 1) refl refl

-- The book that the engine's one order rests in.
unfoldable buyer_book : Book
buyer_book = (add_order (new_book 4) buyer).0

check_invariant-counters_example :
    (resting_engine.state_corrupt ≡ false)
    × (working buy (state_or (find_position resting_engine (key_of buyer_info)))
        ≡ reserved buy (key_of buyer_info) resting_engine.order_risk % u64_mod)
    × (get_order_count buyer_book ≡ length resting_engine.order_risk)
    × Tracks 1 buyer_info (get_order_by_id buyer_book 1)
unfolding book_program risk_program resting_engine buyer_book
check_invariant-counters_example =
    check_invariant-counters resting_engine buyer_book buy (key_of buyer_info) 1 buyer_info refl
      refl
