-- ===== src/Domain/Intents.antt =====
-- `OrderIntent` of kaupo/domain.py and the checks of its `__post_init__`.
use kaupo.Base.{Option, none, some, if◌then◌else◌}
use kaupo.Base.Int.{ℤ, pos, leb_ℤ}
use kaupo.Domain.Types.{Pair, Side, OrderType, market, limit}

pub record OrderIntent : Type 0 where
  pub pair : Pair
  pub side : Side
  pub size : ℤ
  pub order_type : OrderType
  pub limit_price : Option ℤ
  pub stop_loss : Option ℤ
  pub take_profit : Option ℤ

-- The ValueErrors of `__post_init__`.
pub data IntentError : Type 0 where
  size_not_positive limit_needs_price market_has_price : IntentError

unfoldable pub check_price : OrderType → Option ℤ → Option IntentError
check_price limit none = some limit_needs_price
check_price limit (some p) = if leb_ℤ p (pos 0) then some limit_needs_price else none
check_price market none = none
check_price market (some _) = some market_has_price

-- `__post_init__`: `none` is acceptance.
unfoldable pub post_init : OrderIntent → Option IntentError
unfolding check_price
post_init i =
    if leb_ℤ i.size (pos 0) then some size_not_positive else check_price i.order_type i.limit_price
