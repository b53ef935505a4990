-- ===== src/Wire/Sizes.antt =====
-- `MSize` of src/common/mspmsg.vala.
use mwptools.Common.{ℕ, String, List, [], ◌∷◌}

unfoldable pub msizes : List (String × ℕ)
msizes =
    ("MSP_IDENT", 7)
    ∷ ("MSP_STATUS", 11)
    ∷ ("MSP_STATUS_EX", 16)
    ∷ ("MSP2_INAV_STATUS", 21)
    ∷ ("MSP_MISC", 22)
    ∷ ("MSP_ALTITUDE", 6)
    ∷ ("MSP_RAW_GPS", 18)
    ∷ ("MSP_ATTITUDE", 6)
    ∷ ("MSP_WP", 21)
    ∷ ("MSP_NAV_STATUS", 7)
    ∷ ("MSP_NAV_CONFIG", 21)
    ∷ ("MSP_RC_TUNING", 7)
    ∷ ("MSP_RADIO", 9)
    ∷ ("MSP_COMP_GPS", 5)
    ∷ ("MSP_ANALOG", 7)
    ∷ ("LTM_GFRAME", 14)
    ∷ ("LTM_AFRAME", 6)
    ∷ ("LTM_SFRAME", 7)
    ∷ ("LTM_OFRAME", 14)
    ∷ ("LTM_NFRAME", 6)
    ∷ ("LTM_XFRAME", 6)
    ∷ ("MSP_GPSSTATISTICS", 20)
    ∷ ("MSP_ANALOG2", 40)
    ∷ []
