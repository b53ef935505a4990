-- ===== src/ReadSb/Messages.antt =====
-- The functions of src/mwp/readsb.pb-c.c that initialise, pack and unpack a message. They pass their
-- arguments on to libprotobuf-c, which is a parameter, behind an assertion about the descriptor.
pub mod Initials
pub mod Defaults
pub mod Own
mod Tests
use text.Mathlib.Text.{◌==◌ as str_eq}
use mwptools.Common.{ℕ, Bool, Option, none, some, String, List, if◌then◌else◌}
use mwptools.Common.Result.{Result, ok, fault, assertion}

-- `X__INIT`: the descriptor, and the text of the value of each member behind `base`.
pub record Initial : Type 0 where
  pub descriptor : String
  pub values : List String

-- The descriptor that each function of a message names.
pub record Functions : Type 0 where
  pub get_packed_size : String
  pub pack : String
  pub pack_to_buffer : String
  pub unpack : String
  pub free_unpacked : String

-- A message: the descriptor in its `base`, and its members, which are the library's business.
pub record Message (Members : Type 0) : Type 0 where
  pub descriptor : String
  pub members : Members

-- libprotobuf-c: the bytes of a message, their number, the message that bytes hold by a descriptor, and
-- what becomes of the memory when a message is freed.
pub record Library (Members Memory : Type 0) : Type 0 where
  pub packed_size : Message Members → ℕ
  pub pack : Message Members → List ℕ
  pub unpack : String → List ℕ → Option (Message Members)
  pub free_unpacked : Message Members → Memory → Memory

-- `assert(message->base.descriptor == &..)`
abbrev pub assert : {A M : Type 0} → String → Message M → A → Result A
assert expected m a = if str_eq m.descriptor expected then ok a else fault assertion

unfoldable pub get_packed_size : {M H : Type 0} → Library M H → Functions → Message M → Result ℕ
get_packed_size lib f m = assert f.get_packed_size m (lib.packed_size m)

unfoldable pub pack : {M H : Type 0} → Library M H → Functions → Message M → Result (List ℕ)
pack lib f m = assert f.pack m (lib.pack m)

unfoldable pub pack_to_buffer :
    {M H : Type 0} → Library M H → Functions → Message M → Result (List ℕ)
pack_to_buffer lib f m = assert f.pack_to_buffer m (lib.pack m)

unfoldable pub unpack : {M H : Type 0} → Library M H → Functions → List ℕ → Option (Message M)
unpack lib f bytes = lib.unpack f.unpack bytes

-- The memory behind the call; NULL is returned from at once.
unfoldable pub free_unpacked :
    {M H : Type 0} → Library M H → Functions → Option (Message M) → H → Result H
free_unpacked lib f none memory = ok memory
free_unpacked lib f (some m) memory = assert f.free_unpacked m (lib.free_unpacked m memory)
