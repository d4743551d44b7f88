-- ===== src/Record/Message.antt =====
-- A whole message of cwaf/csp_kernel_record.c, as cwaf/unit_test/csp_kernel_test.c writes and reads
-- one: start, the fields in order, end.
use cloudeagle.Common.{ℕ, ◌%◌, ◌^◌, ◌≤◌, ◌<◌, List, [], ◌∷◌, ◌++◌}
use cloudeagle.Value.{value_append}
use cloudeagle.Record.{Call, ◌>>=◌, ◌>>◌, result}
use cloudeagle.Value.Float.{float2_raw_int_bits}
use cloudeagle.Record.Envelope.{enclosed}
use cloudeagle.Record.Get.{record_get_start, record_get_end}
use cloudeagle.Record.Calls.{Kind, bool, float, append_kind, get_kind, size_of, raw_bits}
pub mod Fields
pub mod RoundTrip

abbrev pub Field : Type 0
Field = Kind × ℕ

unfoldable pub append_fields : List Field → Call (Unit {0})
append_fields [] = result tt
append_fields ((k, v) ∷ fs) = append_kind k v >> append_fields fs

unfoldable pub write_message : List Field → Call (Unit {0})
unfolding enclosed
write_message fs = enclosed (append_fields fs)

unfoldable pub get_fields : (ℕ → ℕ → ℕ) → List Kind → Call (List ℕ)
get_fields wide_shl [] = result []
get_fields wide_shl (k ∷ ks) = do
  v ← get_kind wide_shl k
  vs ← get_fields wide_shl ks
  result (v ∷ vs)

unfoldable pub read_message : (ℕ → ℕ → ℕ) → List Kind → Call (List ℕ)
read_message wide_shl ks = do
  record_get_start
  vs ← get_fields wide_shl ks
  record_get_end
  result vs

-- The bytes of the fields, and how many there are.
abbrev pub encode : List Field → List ℕ
encode [] = []
encode ((k, v) ∷ fs) = value_append (size_of k) (raw_bits k v) ++ encode fs

-- A field that takes at most four bytes, with a value that its C type has.
abbrev pub IsNarrow : Field → Type 0
IsNarrow (bool, v) = v < 2 ^ 32
IsNarrow (k, v) = (size_of k ≤ 4) × (v < 256 ^ size_of k)

-- What comes back: a `bool` is cut to a byte, and a float that is no number becomes one fixed NaN.
abbrev pub read_back : Field → ℕ
read_back (bool, v) = v % 256
read_back (float, v) = float2_raw_int_bits v
read_back (_, v) = v

abbrev pub kind_of : Field → Kind
kind_of (k, v) = k
