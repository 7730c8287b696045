-- ===== src/Node.antt =====
-- ipmb-js/src/lib.rs: the Node module. Here its label expressions, its selectors and the mapping of a
-- region; the children model the receiver and the sender.
pub mod Action
pub mod Buffer
pub mod Timeouts
pub mod Run
pub mod Delivery
pub mod Promises
pub mod Thread
pub mod Upload
mod Examples
use ipmb.Prelude.{ℕ, ◌+◌, ◌*◌, ◌^◌, String, Bool, true, false, Option, none, some, if◌then◌else◌}
use ipmb.Errors.{Error, Result}
use ipmb.Label.{LabelOp, always, never, leaf, and, or, negation}
use ipmb.Message.{SelectorMode, unicast, multicast, unicast_to, multicast_to}
use ipmb.Region.{ℤ, pos, negsuc, MappedRegion, MemoryRegion}
use ipmb.Region.Mapping.{System, map_range}
use ipmb.Util.{Bound, included, excluded, unbounded, usize}

-- A value of JavaScript: a boolean, or anything else with the text that Node-API coerces it to, if it
-- does.
pub data JsUnknown : Type 0 where
  boolean : Bool → JsUnknown
  coerced : Option String → JsUnknown

abbrev pub leaf_of : Option String → Option LabelOp
leaf_of none = none
leaf_of (some s) = some (leaf s)

-- `LabelOp::new`
unfoldable pub new_label_op : JsUnknown → Option LabelOp
new_label_op (boolean b) = some (if b then always else never)
new_label_op (coerced s) = leaf_of s

-- `LabelOp::not`, `LabelOp::and`, `LabelOp::or`, which replace the expression
abbrev pub replace_not : LabelOp → LabelOp
replace_not op = negation op

abbrev pub replace_and : LabelOp → LabelOp → LabelOp
replace_and op right = and op right

abbrev pub replace_or : LabelOp → LabelOp → LabelOp
replace_or op right = or op right

-- `ttl` is in milliseconds, a `u32`.
pub record JsSelector : Type 0 where
  pub label_op : LabelOp
  pub mode : SelectorMode
  pub ttl : ℕ

abbrev pub selector_at : SelectorMode → LabelOp → ipmb.Message.Selector
selector_at unicast op = unicast_to op
selector_at multicast op = multicast_to op

-- `From<Selector> for ipmb::Selector`
unfoldable pub ipmb_selector : JsSelector → ipmb.Message.Selector
ipmb_selector s = record (selector_at s.mode s.label_op) { ttl = s.ttl * 10 ^ 6 }

-- `MemoryRegion::map`, for an offset and a size of which a negative one means the rest
unfoldable pub map_region : System → MemoryRegion → ℕ → ℤ → Result MappedRegion Error × MemoryRegion
unfolding map_range
map_region sys r offset (negsuc size) = map_range sys r (included offset) unbounded
map_region sys r offset (pos size) =
    map_range sys r (included offset) (excluded (usize (offset + size)))
