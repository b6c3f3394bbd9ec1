-- ===== src/Interpreter/Registers.antt =====
-- `write_register` and `read_register`.
use icewind.Common.{
  ℕ, zero, suc, ◌+◌, ◌*◌, ◌^◌, ltb, leb, ◌==◌, if◌then◌else◌, bit_and, Outcome, ok, panic, ◌>>=◌,
}
use icewind.BitFields.Defs.{mask}
use icewind.Rudder.Types
use icewind.Rudder.Types.{Typ, PrimitiveType, width_bytes}
use icewind.Interpreter.Values.{
  Value, Values, unsigned_integer, signed_integer, floating_point, string, vector, tuple, empty,
  item,
}
use icewind.Interpreter.RegisterFile.{RegisterFile, write_raw, read_raw}

-- the bytes of a register of `width` bits up to 64
unfoldable pub bytes_of : ℕ → ℕ
bytes_of width =
    if leb width 8 then 1 else if leb width 16 then 2 else if leb width 32 then 4 else 8

-- `try_from` to the integer of the register, with `unwrap`
unfoldable pub fitting : ℕ → ℕ → Outcome ℕ
fitting size value = if ltb value (2 ^ (8 * size)) then ok value else panic

unfoldable pub write_integer : RegisterFile → ℕ → ℕ → ℕ → Outcome RegisterFile
write_integer f value width offset =
    if width == 0
    then ok f
    else if leb width 64
    then (do value' ← fitting (bytes_of width) value; write_raw f (bytes_of width) offset value')
    else if leb width 128
    then (do f' ← write_raw f 8 offset value; write_raw f' 8 (offset + 8) 0)
    else ok f

-- the width of the first element, in bits
unfoldable pub first_width : Values → Outcome ℕ
first_width (item (unsigned_integer value width) vs) = ok width
first_width (item (signed_integer value width) vs) = ok width
first_width _ = panic

unfoldable mutual
  pub write_register : RegisterFile → Value → ℕ → Outcome RegisterFile
  write_register f (unsigned_integer value width) offset = write_integer f value width offset
  write_register f (signed_integer value width) offset =
      write_integer f (bit_and value (mask width)) width offset
  write_register f (vector values) offset = do
    width ← first_width values
    write_elements f values offset width
  write_register f (floating_point x) offset = panic
  write_register f (string s) offset = panic
  write_register f (tuple vs) offset = panic

  pub write_elements : RegisterFile → Values → ℕ → ℕ → Outcome RegisterFile
  write_elements f empty offset stride = ok f
  write_elements f (item v vs) offset stride = do
    f' ← write_register f v offset
    write_elements f' vs (offset + stride) stride

-- the word of a register of `width` bits
unfoldable pub read_integer : RegisterFile → ℕ → ℕ → Outcome ℕ
read_integer f width offset =
    if width == 0
    then ok 0
    else if leb width 64
    then read_raw f (bytes_of width) offset
    else if leb width 128
    then (do value ← read_raw f 16 offset; fitting 8 value)
    else ok 0

unfoldable pub read_elements : (ℕ → Outcome Value) → ℕ → ℕ → ℕ → Outcome Values
read_elements read zero offset stride = ok empty
read_elements read (suc n) offset stride = do
  v ← read offset
  vs ← read_elements read n (offset + stride) stride
  ok (item v vs)

unfoldable pub read_register : RegisterFile → Typ → ℕ → Outcome Value
read_register f (Types.primitive (Types.unsigned_integer width)) offset = do
  value ← read_integer f width offset
  ok (unsigned_integer (bit_and value (mask width)) width)
read_register f (Types.primitive (Types.signed_integer width)) offset = do
  value ← read_integer f width offset
  ok (signed_integer (bit_and value (mask width)) width)
read_register f (Types.primitive (Types.floating_point width)) offset = panic
read_register f (Types.vector element_count element_type) offset = do
  element_width ← width_bytes element_type
  vs ← read_elements (read_register f element_type) element_count offset element_width
  ok (vector vs)
read_register f Types.int offset = do value ← read_raw f 8 offset; ok (signed_integer value 64)
read_register f (Types.tuple ts) offset = panic
read_register f Types.bits offset = panic
read_register f Types.string offset = panic
read_register f Types.real offset = panic
