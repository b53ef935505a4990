-- ===== src/Wire/MspMore.antt =====
-- The structs of src/common/mspmsg.h behind MSP_RC_TUNING_FC, and those of LTM.
use mwptools.Common.{none, List, [], ◌∷◌}
use mwptools.Wire.Layout.{Struct, field, i16, i32, u16, u32, u8}

abbrev pub msp_analog : Struct
msp_analog = record {
  tag = "_msp_analog";
  typedef_tag = "_msp_analog";
  name = "MSP_ANALOG";
  fields = field "vbat" u8 ∷ field "powermetersum" u16 ∷ field "rssi" u16 ∷ field "amps" u16 ∷ [];
  items = none;
}

abbrev pub msp_analog2 : Struct
msp_analog2 = record {
  tag = "_msp_analog2";
  typedef_tag = "_msp_analog2";
  name = "MSP_ANALOG2";
  fields =
      field "flags" u8
      ∷ field "vbat" u16
      ∷ field "amps" u16
      ∷ field "powerdraw" u32
      ∷ field "mahdraw" u32
      ∷ field "mwhdraw" u32
      ∷ field "remcapa" u32
      ∷ field "battpct" u8
      ∷ field "rssi" u16
      ∷ [];
  items = none;
}

abbrev pub msp_nav_poshold : Struct
msp_nav_poshold = record {
  tag = "_msp_nav_poshold";
  typedef_tag = "_msp_nav_poshold";
  name = "MSP_NAV_POSHOLD";
  fields =
      field "nav_user_control_mode" u8
      ∷ field "nav_max_speed" u16
      ∷ field "nav_max_climb_rate" u16
      ∷ field "nav_manual_speed" u16
      ∷ field "nav_manual_climb_rate" u16
      ∷ field "nav_mc_bank_angle" u8
      ∷ field "nav_use_midthr_for_althold" u8
      ∷ field "nav_mc_hover_thr" u16
      ∷ record { name = "reserved"; scalar = u8; count = 8 }
      ∷ [];
  items = none;
}

abbrev pub ltm_gframe : Struct
ltm_gframe = record {
  tag = "_ltm_gframe";
  typedef_tag = "_ltm_gframe";
  name = "LTM_GFRAME";
  fields =
      field "lat" i32 ∷ field "lon" i32 ∷ field "speed" u8 ∷ field "alt" i32 ∷ field "sats" u8 ∷ [];
  items = none;
}

abbrev pub ltm_aframe : Struct
ltm_aframe = record {
  tag = "_ltm_aframe";
  typedef_tag = "_ltm_aframe";
  name = "LTM_AFRAME";
  fields = field "pitch" i16 ∷ field "roll" i16 ∷ field "heading" i16 ∷ [];
  items = none;
}

abbrev pub ltm_sframe : Struct
ltm_sframe = record {
  tag = "_ltm_sframe";
  typedef_tag = "_ltm_sframe";
  name = "LTM_SFRAME";
  fields =
      field "vbat" u16
      ∷ field "vcurr" u16
      ∷ field "rssi" u8
      ∷ field "airspeed" u8
      ∷ field "flags" u8
      ∷ [];
  items = none;
}

abbrev pub ltm_xframe : Struct
ltm_xframe = record {
  tag = "_ltm_xframe";
  typedef_tag = "_ltm_xframe";
  name = "LTM_XFRAME";
  fields =
      field "hdop" u16
      ∷ field "sensorok" u8
      ∷ field "ltm_x_count" u8
      ∷ field "disarm_reason" u8
      ∷ field "spare" u8
      ∷ [];
  items = none;
}

abbrev pub msp_wp_getinfo : Struct
msp_wp_getinfo = record {
  tag = "msp_wp_getinfo";
  typedef_tag = "_msp_wp_getinfo";
  name = "MSP_WP_GETINFO";
  fields = field "wp_cap" u8 ∷ field "max_wp" u8 ∷ field "wps_valid" u8 ∷ field "wp_count" u8 ∷ [];
  items = none;
}

abbrev pub msp_fw_config : Struct
msp_fw_config = record {
  tag = "_msp_fw_config";
  typedef_tag = "_msp_fw_config";
  name = "MSP_FW_CONFIG";
  fields =
      field "cruise_throttle" u16
      ∷ field "min_throttle" u16
      ∷ field "max_throttle" u16
      ∷ field "max_bank_angle" u8
      ∷ field "max_climb_angle" u8
      ∷ field "max_dive_angle" u8
      ∷ field "pitch_to_throttle" u8
      ∷ field "loiter_radius" u16
      ∷ [];
  items = none;
}

abbrev pub msp_gpsstatistics : Struct
msp_gpsstatistics = record {
  tag = "_msp_gpsstatistics";
  typedef_tag = "_msp_gpsstatistics";
  name = "MSP_GPSSTATISTICS";
  fields =
      field "last_message_dt" u16
      ∷ field "errors" u32
      ∷ field "timeouts" u32
      ∷ field "packet_count" u32
      ∷ field "hdop" u16
      ∷ field "eph" u16
      ∷ field "epv" u16
      ∷ [];
  items = none;
}

unfoldable pub more_structs : List Struct
more_structs =
    msp_analog ∷ msp_analog2 ∷ msp_nav_poshold ∷ ltm_gframe ∷ ltm_aframe ∷ ltm_sframe ∷ ltm_xframe
    ∷ msp_wp_getinfo ∷ msp_fw_config ∷ msp_gpsstatistics ∷ []
