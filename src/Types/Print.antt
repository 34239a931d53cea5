-- ===== src/Types/Print.antt =====
-- `type_to_string` of source/type.c.
use Prim.Native.Char.{code}
use Prim.Native.String.{String}
use atcc.Prelude.{ℕ, zero, suc, ◌+◌, ◌-◌, ◌/◌, ◌%◌, ◌^◌, [], ◌∷◌, ◌++◌, ltb, if◌then◌else◌, u32_mod}
use atcc.Ati.Strings.{Bytes}
use atcc.Types.Kinds.{TypeKind}
use atcc.Types.{AtccType, TypeBody}

-- `str`
abbrev pub str : String → Bytes
str String.[] = []
str (String.◌∷◌ c s) = code c ∷ str s

abbrev digits : ℕ → ℕ → Bytes
digits zero n = []
digits (suc fuel) n =
    let front = digits fuel (n / 10) in
    if ltb n 10 then (b'0' + n) ∷ [] else front ++ (b'0' + n % 10) ∷ []

-- `%d` on a u32: ten digits, and a sign from 2 ^ 31 on
abbrev pub decimal : ℕ → Bytes
decimal n = if ltb n (2 ^ 31) then digits 10 n else b'-' ∷ digits 10 (u32_mod - n)

abbrev pub kind_name : TypeKind → ℕ → Bytes
kind_name TypeKind.void typeid = str "void"
kind_name TypeKind.i8 typeid = str "i8"
kind_name TypeKind.u8 typeid = str "u8"
kind_name TypeKind.i16 typeid = str "i16"
kind_name TypeKind.u16 typeid = str "u16"
kind_name TypeKind.i32 typeid = str "i32"
kind_name TypeKind.u32 typeid = str "u32"
kind_name TypeKind.i64 typeid = str "i64"
kind_name TypeKind.u64 typeid = str "u64"
kind_name TypeKind.f32 typeid = str "f32"
kind_name TypeKind.f64 typeid = str "f64"
kind_name TypeKind.string typeid = str "string"
kind_name kind typeid = str "{typeid" ++ decimal typeid ++ str "}"

unfoldable mutual
  pub type_to_string : AtccType → Bytes
  type_to_string (AtccType.type body typeid size pack) = body_to_string body typeid

  pub body_to_string : TypeBody → ℕ → Bytes
  body_to_string (TypeBody.basic kind) typeid = kind_name kind typeid
  body_to_string (TypeBody.pointer_to t) typeid = type_to_string t ++ str "*"
  body_to_string (TypeBody.array_of t n is_dynamic) typeid =
      let base = type_to_string t in
      if is_dynamic
      then base ++ str "[*]"
      else if ltb 0 n
      then base ++ (str "[" ++ decimal n ++ str "]")
      else base ++ str "[]"
  body_to_string (TypeBody.aggregate_of owner name) typeid = name
  body_to_string (TypeBody.function_of ps r v) typeid = str "{typeid" ++ decimal typeid ++ str "}"
