-- ===== src/Wire/Tests.antt =====
-- Messages that src/common/mspmsg.h describes, and the theorems about packed structs at them.
use mwptools.Common.{◌<◌, ◌≡◌, refl, none, some, if◌then◌else◌}
use mwptools.Wire.Ublox
use mwptools.Wire.UbloxBinding
use mwptools.Wire.MspBinding
use mwptools.Wire.MspBinding.{first_bindings}
use mwptools.Wire.Sizes.{msizes}
use mwptools.Wire.Declared.{
  bindings, layout_of, is_unknown, bindings-layout_of, size_of, expected_size, msizes-size_of,
}

bindings-layout_of_example :
    (layout_of "MSP_RAW_GPS"
      ≡ (if is_unknown "MSP_RAW_GPS" then none else some MspBinding.msp_raw_gps.fields))
    × (UbloxBinding.ublox_buffer.members ≡ Ublox.ublox_buffer.members)
    × (UbloxBinding.ublox_buffer.bytes < Ublox.ublox_buffer.bytes)
unfolding bindings first_bindings
bindings-layout_of_example = bindings-layout_of 4 refl

msizes-size_of_example : size_of "MSP_ANALOG2" ≡ expected_size ("MSP_ANALOG2", 40)
unfolding msizes
msizes-size_of_example = msizes-size_of 22 refl
