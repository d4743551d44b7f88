-- ===== src/Record/Message/Fields.antt =====
-- One field: where it goes, and that it is read back.
use cloudeagle.Common.{ℕ, ◌≡◌, ◌∙◌, arith}
use cloudeagle.Common.Memory.{Memory, Holds}
use cloudeagle.Value.{value_append, value_get}
use cloudeagle.Value.RoundTrip.{value_get_bool, value_get_byte, value_get_short, value_get_int}
use cloudeagle.Value.Float.{float2_raw_int_bits, float2_raw_int_bits-lt}
use cloudeagle.Record.Calls.{
  Kind, bool, short, int, long, ushort, uint, ulong, float, double, int8, int16, int32, int64,
  uint8, uint16, uint32, uint64, size_of, read_bits, raw_bits,
}
use cloudeagle.Record.Message.{IsNarrow, read_back}

-- The bytes of a narrow field are read as what it comes back as.
pub read_back_lem :
    (wide_shl : ℕ → ℕ → ℕ) (k : Kind) (v : ℕ) (m : Memory) (p : ℕ)
    → IsNarrow (k, v)
    → Holds m p (value_append (size_of k) (raw_bits k v))
    → value_get wide_shl (read_bits k) (size_of k) m p 0 ≡ read_back (k, v)
read_back_lem w bool v m p n h = value_get_bool w m p v h
read_back_lem w short v m p n h = value_get_short w m p v h ∙ omega arith
read_back_lem w int v m p n h = value_get_int w m p v h ∙ omega arith
read_back_lem w ushort v m p n h = value_get_short w m p v h ∙ omega arith
read_back_lem w uint v m p n h = value_get_int w m p v h ∙ omega arith
read_back_lem w float v m p n h =
    value_get_int w m p (float2_raw_int_bits v) h ∙ omega (arith, float2_raw_int_bits-lt v n.1)
read_back_lem w int8 v m p n h = value_get_byte w m p v h ∙ omega arith
read_back_lem w int16 v m p n h = value_get_short w m p v h ∙ omega arith
read_back_lem w int32 v m p n h = value_get_int w m p v h ∙ omega arith
read_back_lem w uint8 v m p n h = value_get_byte w m p v h ∙ omega arith
read_back_lem w uint16 v m p n h = value_get_short w m p v h ∙ omega arith
read_back_lem w uint32 v m p n h = value_get_int w m p v h ∙ omega arith
read_back_lem w long v m p n h = absurd (omega arith)
read_back_lem w ulong v m p n h = absurd (omega arith)
read_back_lem w double v m p n h = absurd (omega arith)
read_back_lem w int64 v m p n h = absurd (omega arith)
read_back_lem w uint64 v m p n h = absurd (omega arith)
