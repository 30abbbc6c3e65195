-- ===== src/Packet/Link.antt =====
-- The state of a packet and of the line to gdb, and the monad of the routines over it.
use mri.Prelude.{ℕ, ◌≡◌, ◌+◌, ◌-◌, List, [], ◌∷◌, ◌++◌, Bool, false}
use mri.Buffer.Core.{Buffer, reset}

-- The pointers of a `Buffer`, as indices of the memory that the two buffers of a packet share.
pub record Span : Type 0 where
  pub start : ℕ
  pub last : ℕ
  pub current : ℕ

-- `Packet`, its memory, `mriExceptionCode`, the flag that `ControlCEncountered` sets, and the line:
-- `input` is what gdb still sends, `polls` are the answers that `Platform_CommHasReceiveData` gives
-- from now on (false behind the last), and `output` is what has been sent.
pub record Link : Type 0 where
  pub mem : List ℕ
  pub exn : ℕ
  pub packet_buffer : Span
  pub data_buffer : Span
  pub last_char : ℕ
  pub calculated_checksum : ℕ
  pub expected_checksum : ℕ
  pub control_c : Bool
  pub input : List ℕ
  pub polls : List Bool
  pub output : List ℕ

-- A buffer of the packet as a buffer of core/buffer.c.
abbrev pub view : Link → Span → Buffer
view l s = record { mem = l.mem; exn = l.exn; start = s.start; last = s.last; current = s.current }

abbrev pub pointers : Buffer → Span
pointers b = record { start = b.start; last = b.last; current = b.current }

-- The state after a routine of core/buffer.c on one of the two.
abbrev pub with_data : Link → Buffer → Link
with_data l b = record l { mem = b.mem; exn = b.exn; data_buffer = pointers b }

abbrev pub with_packet : Link → Buffer → Link
with_packet l b = record l { mem = b.mem; exn = b.exn; packet_buffer = pointers b }

abbrev pub data_view : Link → Buffer
data_view l = view l l.data_buffer

abbrev pub packet_view : Link → Buffer
packet_view l = view l l.packet_buffer

-- How a routine ends: it returns; or it waits for a character that gdb never sends; or the fuel of a
-- loop of the model is used up.
pub data Outcome {ℓ} (A : Type ℓ) : Type ℓ where
  done : A → Link → Outcome A
  waits : Link → Outcome A
  stuck : Outcome A

abbrev pub M {ℓ} : Type ℓ → Type ℓ
M A = Link → Outcome A

-- One routine after the other; what the first returns is given to the second.
infixl 5 ◌>>=◌
abbrev pub ◌>>=◌ {ℓ κ} : {A : Type ℓ} {B : Type κ} (first : M A) (second : A → M B) → M B
◌>>=◌ first second l = elim (first l) [
  | stuck ↦ stuck
  | waits l' ↦ waits l'
  | done a l' ↦ second a l'
]

infixl 5 ◌>>◌
abbrev pub ◌>>◌ {ℓ} : {B : Type ℓ} (first : M (Unit {0})) (second : M B) → M B
◌>>◌ first second = first >>= λ _. second

abbrev pub pure {ℓ} : {A : Type ℓ} → A → M A
pure a l = done a l

abbrev pub modify : (Link → Link) → M (Unit {0})
modify f l = done tt (f l)

-- `getNextCharFromGdb`, over `Platform_CommReceiveChar`
unfoldable pub get_next_char : M ℕ
get_next_char l = elim l.input [
  | [] ↦ waits l
  | c ∷ rest ↦ done c (record l { input = rest; last_char = c })
]

-- `Platform_CommHasReceiveData`
unfoldable pub has_receive_data : M Bool
has_receive_data l = elim l.polls [
  | [] ↦ done false l
  | more ∷ rest ↦ done more (record l { polls = rest })
]

-- `Platform_CommSendChar`
abbrev pub send_char : ℕ → Link → Link
send_char c l = record l { output = l.output ++ (c ∷ []) }

-- `initPacketStructure`
unfoldable pub init_packet_structure : Link → Link
init_packet_structure l =
    with_packet (record l { last_char = 0; calculated_checksum = 0; expected_checksum = 0 })
      (reset (packet_view l))

-- `Packet_Init`: room for '$', '#' and the checksum is kept round the data.
unfoldable pub init : ℕ → ℕ → Link → Link
init buffer_start buffer_size l = record l {
  data_buffer = record {
    start = buffer_start + 1;
    last = buffer_start + 1 + (buffer_size - 4);
    current = buffer_start + 1;
  };
  packet_buffer = record {
    start = buffer_start;
    last = buffer_start + buffer_size;
    current = buffer_start;
  };
}

-- What a sequence does once its first part is known to return.
pub >>=-done {ℓ κ} :
    {A : Type ℓ} {B : Type κ} (m : M A) (f : A → M B) (l : Link) {a : A} {l' : Link}
    → m l ≡ done a l'
    → (m >>= f) l ≡ f a l'
>>=-done m f l h = rw (h, ◌>>=◌)
