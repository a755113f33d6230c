-- ===== src/Cfg/Types.antt =====
-- What internal/cfg/cfg.go asks of go/types and go/token: the objects that names resolve to, the
-- constant values and the channel types of expressions, and the positions of nodes. The functions
-- of this program over them are `called_object`, `callee_name`, `constant_bool` and `is_panic_call`.
use Prim.Native.String.{◌++◌}
use lifeline.Prelude.{String, Bool, true, false, Option, some, none, str_eq, if◌then◌else◌}
use lifeline.Model.Source.{Span}
use lifeline.Cfg.Ast.{
  NodeId, Expr, Call, ident, selector_expr, call_expr, index_expr, paren_expr, unary_expr,
  binary_expr, basic_lit, func_lit, other_expr, mk_call,
}

-- A receiver's type: a pointer to a type, a named type with the path of its package, or another.
pub data RecvType : Type 0 where
  pointer : RecvType → RecvType
  named : Option String → String → RecvType
  other_type : RecvType

-- An object: a builtin; a function or method with its name, the path of its package and the type
-- of its receiver; or another object with a name.
pub data Object : Type 0 where
  builtin : String → Object
  func : String → Option String → Option RecvType → Object
  other_object : String → Object

-- `*types.Info`: objects of identifiers, objects of selections, constant Boolean values, and
-- whether the underlying type of an expression is a channel.
pub record Info : Type 0 where
  pub object_of : NodeId → Option Object
  pub selections : NodeId → Option Object
  pub bool_value : NodeId → Option Bool
  pub is_chan : NodeId → Bool

-- `*token.FileSet`, as far as `spanOf` uses it: the positions of a node's two ends.
abbrev pub FileSet : Type 0
FileSet = NodeId → Span

abbrev pub expr_id : Expr → NodeId
expr_id (ident id name) = id
expr_id (selector_expr id x sel name) = id
expr_id (call_expr (mk_call id fun args)) = id
expr_id (index_expr id x indices) = id
expr_id (paren_expr id x) = id
expr_id (unary_expr id op x) = id
expr_id (binary_expr id x op y) = id
expr_id (basic_lit id value) = id
expr_id (func_lit id) = id
expr_id (other_expr id children) = id

or_else : Option Object → Option Object → Option Object
or_else none o = o
or_else (some x) o = some x

called_object : Info → Expr → Option Object
unfolding or_else
called_object info (ident id name) = info.object_of id
called_object info (selector_expr id x sel name) = or_else (info.selections id) (info.object_of sel)
called_object info (index_expr id x indices) = called_object info x
called_object info (paren_expr id x) = called_object info x
called_object info (call_expr c) = none
called_object info (unary_expr id op x) = none
called_object info (binary_expr id x op y) = none
called_object info (basic_lit id value) = none
called_object info (func_lit id) = none
called_object info (other_expr id children) = none

-- The receiver's type with one pointer taken off.
recv_elem : RecvType → RecvType
recv_elem (pointer t) = t
recv_elem (named pkg name) = named pkg name
recv_elem other_type = other_type

-- The text before a method's name: package and type where the type is named in a package, and
-- else the package of the function.
recv_prefix : String → RecvType → String
recv_prefix pkg (named (some path) name) = path ++ "." ++ name
recv_prefix pkg _ = pkg

object_name : Option Object → String
unfolding recv_elem recv_prefix
object_name none = ""
object_name (some (builtin name)) = name
object_name (some (other_object name)) = name
object_name (some (func name none recv)) = name
object_name (some (func name (some pkg) none)) = pkg ++ "." ++ name
object_name (some (func name (some pkg) (some recv))) =
    recv_prefix pkg (recv_elem recv) ++ "." ++ name

-- `calleeName`, on a call that is not nil.
pub callee_name : Option Info → Call → String
unfolding called_object object_name
callee_name none c = ""
callee_name (some info) (mk_call id fun args) = object_name (called_object info fun)

-- `ConstantBool`: a known value, or none.
pub constant_bool : Option Expr → Option Info → Option Bool
constant_bool (some e) (some info) = info.bool_value (expr_id e)
constant_bool _ _ = none

is_builtin : Option Object → Bool
is_builtin none = true
is_builtin (some (builtin name)) = true
is_builtin (some (func name pkg recv)) = false
is_builtin (some (other_object name)) = false

-- `isPanicCall`.
pub is_panic_call : Option Info → Call → Bool
unfolding is_builtin
is_panic_call info (mk_call id (ident x name) args) =
    if str_eq name "panic"
    then elim info [ none ↦ true | some i ↦ is_builtin (i.object_of x) ]
    else false
is_panic_call info _ = false
