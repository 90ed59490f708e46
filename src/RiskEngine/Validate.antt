-- ===== src/RiskEngine/Validate.antt =====
-- The checks before a trade: `checkOrderFields`, `validate` and `validateReplace` of
-- src/RiskEngine.cpp.
use low_latency_trading_engi.Base.{
  ℕ, ◌-◌, Bool, true, false, not, ◌&&◌, ◌||◌, Option, none, some, get_elem?, ltb, leb, ◌==◌,
  if◌then◌else◌,
}
use low_latency_trading_engi.Base.Int.{ℤ, pos, ◌-ℤ◌, ltb_ℤ, to_int64}
use low_latency_trading_engi.Double.{Double, lt, is_finite, positive_finite}
use low_latency_trading_engi.Order.{Order, buy, sell, is_market, side_eq}
use low_latency_trading_engi.RiskEngine.State.{
  RiskEngine, RiskRejectReason, none_reason, invalid_symbol, invalid_quantity, order_too_large,
  position_limit_exceeded, price_band_violation, invalid_price, state_violation,
  state_corrupt_reason, PositionKey, OrderRiskInfo, max_symbols, state_or, find_position,
  find_order, working,
}
use low_latency_trading_engi.RiskEngine.Arith.{can_add_signed, can_sub_signed, can_add_unsigned}

-- The rounded products of `double`s that the price band needs, from the percentage and the
-- reference price: `ref * (1.0 + pct / 100.0)` and `ref * (1.0 - pct / 100.0)`.
pub record BandArithmetic : Type 0 where
  pub upper : Double → Double → Double
  pub lower : Double → Double → Double

abbrev pub order_key : Order → PositionKey
order_key o = record { trader_id = o.trader_id; symbol_id = o.symbol_id }

-- The price test of a symbol whose reference price is set.
unfoldable pub check_price : BandArithmetic → RiskEngine → Order → Double → RiskRejectReason
check_price ba e o ref =
    let upper = ba.upper e.price_band_pct ref in
    let lower = ba.lower e.price_band_pct ref in
    if not (positive_finite o.price)
    then invalid_price
    else (if not (positive_finite ref)
        then invalid_symbol
        else (if not (is_finite upper) || not (is_finite lower)
            then invalid_price
            else (if lt o.price lower || lt upper o.price
                then price_band_violation
                else none_reason)))

unfoldable pub is_set : RiskEngine → ℕ → Bool
is_set e symbol = elim (get_elem? e.ref_price_set symbol) [ none ↦ false | some b ↦ b ]

unfoldable pub check_order_fields : BandArithmetic → RiskEngine → Order → RiskRejectReason
check_order_fields ba e o =
    if o.quantity == 0
    then invalid_quantity
    else (if ltb e.max_order_qty o.quantity
        then order_too_large
        else (if leb max_symbols o.symbol_id || not (is_set e o.symbol_id)
            then invalid_symbol
            else (elim (get_elem? e.ref_prices o.symbol_id) [
              | none ↦ invalid_symbol
              | some ref ↦ if is_market o.type then none_reason else check_price ba e o ref
            ])))

-- `std::optional`-like chains: a step that fails exceeds the limit.
abbrev pub or_exceeded : Option ℤ → (ℤ → RiskRejectReason) → RiskRejectReason
or_exceeded none k = position_limit_exceeded
or_exceeded (some n) k = k n

abbrev pub within_limit : Bool → RiskRejectReason
within_limit true = position_limit_exceeded
within_limit false = none_reason

abbrev pub is_none : RiskRejectReason → Bool
is_none none_reason = true
is_none _ = false

-- The projected position against the limit.
unfoldable pub check_buy : ℕ → ℤ → RiskRejectReason
check_buy max_position projected = within_limit (ltb_ℤ (to_int64 max_position) projected)

unfoldable pub check_sell : ℕ → ℤ → RiskRejectReason
check_sell max_position projected = within_limit (ltb_ℤ projected (pos 0 -ℤ to_int64 max_position))

unfoldable pub validate : BandArithmetic → RiskEngine → Order → RiskRejectReason
validate ba e o =
    let fields = check_order_fields ba e o in
    let state = state_or (find_position e (order_key o)) in
    let qty = pos o.quantity in
    if e.state_corrupt
    then state_corrupt_reason
    else (if not (is_none fields) then fields else (elim o.side [
      | buy ↦
          or_exceeded (can_add_signed state.position (to_int64 state.working_buy))
            λ p. or_exceeded (can_add_signed p qty) (check_buy e.max_position)
      | sell ↦
          or_exceeded (can_sub_signed state.position (to_int64 state.working_sell))
            λ p. or_exceeded (can_sub_signed p qty) (check_sell e.max_position)
    ]))

-- The rest of `validateReplace`, once the old order's reservation is found.
unfoldable pub validate_against : RiskEngine → Order → OrderRiskInfo → RiskRejectReason
validate_against e o old =
    let state = state_or (find_position e (order_key o)) in
    let current = working o.side state in
    if not (old.trader_id == o.trader_id && old.symbol_id == o.symbol_id && side_eq old.side o.side)
    then state_violation
    else (if ltb current old.reserved_qty
        then state_corrupt_reason
        else (elim (can_add_unsigned (current - old.reserved_qty) o.quantity) [
          | none ↦ position_limit_exceeded
          | some projected ↦ elim o.side [
            | buy ↦
                or_exceeded (can_add_signed state.position (to_int64 projected))
                  (check_buy e.max_position)
            | sell ↦
                or_exceeded (can_sub_signed state.position (to_int64 projected))
                  (check_sell e.max_position)
          ]
        ]))

unfoldable pub validate_replace : BandArithmetic → RiskEngine → ℕ → Order → RiskRejectReason
validate_replace ba e old_id o =
    let fields = check_order_fields ba e o in
    if e.state_corrupt
    then state_corrupt_reason
    else (if not (is_none fields) then fields else (elim (find_order e old_id) [
      | none ↦ state_violation
      | some old ↦ validate_against e o old
    ]))
