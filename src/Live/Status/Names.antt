-- ===== src/Live/Status/Names.antt =====
-- The names of orders and modes are read back.
use rwkv_srs.Base.{ok, refl, ◌≡◌}
use rwkv_srs.Live.{
  retrievability_ascending, retrievability_descending, relative_overdueness, random, oracle, fast,
  gpu, LiveOrder, LivePredictionMode,
}
use rwkv_srs.Live.Status.{parse_mode, parse_order, mode_name, order_name}

order_again : (order : LiveOrder) → parse_order (order_name order) ≡ ok order
unfolding parse_order order_name
order_again retrievability_ascending = refl
order_again retrievability_descending = refl
order_again relative_overdueness = refl
order_again random = refl

mode_again : (mode : LivePredictionMode) → parse_mode (mode_name mode) ≡ ok mode
unfolding parse_mode mode_name
mode_again oracle = refl
mode_again fast = refl
mode_again gpu = refl

-- Every order and every mode is parsed from its own name.
pub parse_order-order_name :
    (order : LiveOrder) (mode : LivePredictionMode)
    → (parse_order (order_name order) ≡ ok order) × (parse_mode (mode_name mode) ≡ ok mode)
parse_order-order_name order mode = (order_again order, mode_again mode)
