-- ===== src/Declarative/Reflect.antt =====
-- What package reflect tells of the type of a configuration model.
use Prim.Native.String.{String}
use mathlib.Core.List.{List}
use griffino_go.Base.Maps.{Map}

-- `reflect.Kind`
pub data Kind : Type 0 where
  invalid bool int int8 int16 int32 int64 uint uint8 uint16 uint32 uint64 uintptr : Kind
  float32 float64 complex64 complex128 array chan func interface map pointer slice : Kind
  string struct unsafe_pointer : Kind

-- `Kind.String()`
unfoldable pub kind_text : Kind → String
kind_text Kind.invalid = "invalid"
kind_text Kind.bool = "bool"
kind_text Kind.int = "int"
kind_text Kind.int8 = "int8"
kind_text Kind.int16 = "int16"
kind_text Kind.int32 = "int32"
kind_text Kind.int64 = "int64"
kind_text Kind.uint = "uint"
kind_text Kind.uint8 = "uint8"
kind_text Kind.uint16 = "uint16"
kind_text Kind.uint32 = "uint32"
kind_text Kind.uint64 = "uint64"
kind_text Kind.uintptr = "uintptr"
kind_text Kind.float32 = "float32"
kind_text Kind.float64 = "float64"
kind_text Kind.complex64 = "complex64"
kind_text Kind.complex128 = "complex128"
kind_text Kind.array = "array"
kind_text Kind.chan = "chan"
kind_text Kind.func = "func"
kind_text Kind.interface = "interface"
kind_text Kind.map = "map"
kind_text Kind.pointer = "ptr"
kind_text Kind.slice = "slice"
kind_text Kind.string = "string"
kind_text Kind.struct = "struct"
kind_text Kind.unsafe_pointer = "unsafe.Pointer"

-- `reflect.StructField`; `tags` holds the pairs that `Tag.Lookup` finds, `kind` is the kind of its
-- type.
pub record StructField : Type 0 where
  pub name : String
  pub pkg_path : String
  pub tags : Map String
  pub kind : Kind

-- A type: a pointer, a struct with its fields in order, or one of another kind.
pub data GoType : Type 0 where
  pointer_to : GoType → GoType
  struct_of : List StructField → GoType
  other : (kind : Kind) → GoType

abbrev pub kind_of : GoType → Kind
kind_of (pointer_to t) = Kind.pointer
kind_of (struct_of fields) = Kind.struct
kind_of (other kind) = kind
