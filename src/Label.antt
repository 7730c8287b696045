-- ===== src/Label.antt =====
-- ipmb/src/label.rs: the labels of an endpoint, and the operations that match a message to them.
pub mod Laws
pub mod Matching
mod Examples
use mathlib.Core.List.{foldl}
use ipmb.Prelude.{
  String, Bool, true, false, not, ◌&&◌, ◌||◌, List, [], ◌∷◌, ◌++◌, any, retain, str_eq,
  if◌then◌else◌,
}

-- `Label`, a small vector of strings
pub record Label : Type 0 where
  pub names : List String

-- `self.0.iter().any(|i| i == s)`
abbrev pub has_name : List String → String → Bool
has_name names s = any (λ i. str_eq i s) names

abbrev pub default : Label
default = record { names = [] }

-- `Label::insert`
pub insert : Label → String → Label
insert l s = if has_name l.names s then l else record { names = l.names ++ s ∷ [] }

-- `Label::remove`
pub remove : Label → String → Label
remove l s = record { names = retain (λ i. not (str_eq i s)) l.names }

-- `Label::all`
unfoldable pub all : Label → List String → Bool
all l [] = true
all l (s ∷ sub) = if not (has_name l.names s) then false else all l sub

-- `Label::from` of an iterator, and the macro `label!`
unfoldable pub from : List String → Label
unfolding insert
from = foldl insert default

pub data LabelOp : Type 0 where
  always never : LabelOp
  leaf : String → LabelOp
  negate : LabelOp → LabelOp
  both either : LabelOp → LabelOp → LabelOp

-- `LabelOp::and`, `LabelOp::or`, `Not::not`
abbrev pub and : LabelOp → LabelOp → LabelOp
and op v = both op v

abbrev pub or : LabelOp → LabelOp → LabelOp
or op v = either op v

abbrev pub negation : LabelOp → LabelOp
negation op = negate op

-- `LabelOp::validate`
unfoldable pub validate : LabelOp → Label → Bool
unfolding all
validate always label = true
validate never label = false
validate (leaf v) label = all label (v ∷ [])
validate (both left right) label = validate left label && validate right label
validate (either left right) label = validate left label || validate right label
validate (negate left) label = not (validate left label)
