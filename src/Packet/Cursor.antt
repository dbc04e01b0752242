-- ===== src/Packet/Cursor.antt =====
-- The state of a parse, `offset` and the packet that is being filled in, and what a step of it
-- can end in. The input `data` is a parameter of each step: reading it moves no state.
pub mod Safety
pub mod Steps
pub mod Size
pub mod Takes
use simple_snmpd.Base.{
  ℕ, zero, suc, ◌+◌, Bool, true, false, Option, none, some, Bytes, length, get_elem?, take, drop,
  leb, ◌==◌, if◌then◌else◌, add_size, bit_or, ◌*◌, ◌%◌,
}
use simple_snmpd.Packet.{SnmpPacket}

pub record Cursor : Type 0 where
  pub offset : ℕ
  pub packet : SnmpPacket

-- `reject` is `return false`, with what the packet holds by then. `fault` is no C++ value: a read
-- outside `data`. Nor is `stuck`: a loop ran out of fuel.
pub data Outcome {ℓ} (A : Type ℓ) : Type ℓ where
  ok : A → Cursor → Outcome A
  reject : Cursor → Outcome A
  fault : Outcome A
  stuck : Outcome A

abbrev pub Parser {ℓ} : Type ℓ → Type ℓ
Parser A = Cursor → Outcome A

abbrev pub bind_outcome {ℓ κ} : {A : Type ℓ} {B : Type κ} → Outcome A → (A → Parser B) → Outcome B
bind_outcome (ok a c) f = f a c
bind_outcome (reject c) f = reject c
bind_outcome fault f = fault
bind_outcome stuck f = stuck

infixl 5 ◌>>=◌ ◌>>◌
abbrev pub ◌>>=◌ {ℓ κ} : {A : Type ℓ} {B : Type κ} → Parser A → (A → Parser B) → Parser B
◌>>=◌ m f c = bind_outcome (m c) f

abbrev pub ◌>>◌ {ℓ κ} : {A : Type ℓ} {B : Type κ} → Parser A → Parser B → Parser B
m >> k = m >>= λ _. k

abbrev pub pure {ℓ} : {A : Type ℓ} → A → Parser A
pure a c = ok a c

-- A write to fields of the packet.
abbrev pub update : (SnmpPacket → SnmpPacket) → Parser (Unit {0})
update f c = ok tt (record c { packet = f c.packet })

abbrev pub here : Parser ℕ
here c = ok c.offset c

-- `return false` unless the test passes.
abbrev pub require : Bool → Parser (Unit {0})
require true c = ok tt c
require false c = reject c

-- `data[offset++]`
abbrev pub next_at : Option ℕ → Parser ℕ
next_at none c = fault
next_at (some b) c = ok b (record c { offset = add_size c.offset 1 })

unfoldable pub next : Bytes → Parser ℕ
next input c = next_at (get_elem? input c.offset) c

-- `if (offset >= limit || data[offset] != tag) return false; offset++;`
abbrev pub expect_at : Option ℕ → ℕ → Parser (Unit {0})
expect_at none tag c = fault
expect_at (some b) tag c =
    if b == tag then ok tt (record c { offset = add_size c.offset 1 }) else reject c

unfoldable pub expect : Bytes → ℕ → ℕ → Parser (Unit {0})
expect input limit tag c =
    if leb limit c.offset then reject c else expect_at (get_elem? input c.offset) tag c

-- `if (offset >= limit) return false;`
unfoldable pub require_more : ℕ → Parser (Unit {0})
require_more limit c = if leb limit c.offset then reject c else ok tt c

-- `if (offset + len > limit) return false;`
unfoldable pub require_room : ℕ → ℕ → Parser (Unit {0})
require_room limit len c = if leb (add_size c.offset len) limit then ok tt c else reject c

-- `x.assign(data + offset, data + offset + len); offset += len;`
unfoldable pub copy : Bytes → ℕ → Parser Bytes
copy input len c =
    if leb (c.offset + len) (length input)
    then ok (take len (drop c.offset input)) (record c { offset = add_size c.offset len })
    else fault

-- `for (i = 0; i < n; i++) acc = (acc << 8) | data[offset++];` in an unsigned type of range `m`.
unfoldable pub read_integer : Bytes → ℕ → ℕ → ℕ → Parser ℕ
read_integer input m zero acc c = ok acc c
read_integer input m (suc n) acc c =
    bind_outcome (next input c) (λ b. read_integer input m n (bit_or (acc * 256 % m) b % m))
