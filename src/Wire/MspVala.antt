-- ===== src/Wire/MspVala.antt =====
-- The structs of src/common/mspmsg.vala up to MSP_COMP_GPS.
use mwptools.Common.{none, List, [], ◌∷◌}
use mwptools.Wire.Layout.{Binding, field, i16, i32, u16, u32, u8}

abbrev pub msp_ident : Binding
msp_ident = record {
  name = "MSP_IDENT";
  fields =
      field "version" u8
      ∷ field "multitype" u8
      ∷ field "msp_version" u8
      ∷ field "capability" u32
      ∷ [];
  items = none;
}

abbrev pub msp_status : Binding
msp_status = record {
  name = "MSP_STATUS";
  fields =
      field "cycle_time" u16
      ∷ field "i2c_errors_count" u16
      ∷ field "sensor" u16
      ∷ field "flag" u32
      ∷ field "global_conf" u8
      ∷ [];
  items = none;
}

abbrev pub msp_misc : Binding
msp_misc = record {
  name = "MSP_MISC";
  fields =
      field "intPowerTrigger1" u16
      ∷ field "conf_minthrottle" u16
      ∷ field "maxthrottle" u16
      ∷ field "mincommand" u16
      ∷ field "failsafe_throttle" u16
      ∷ field "plog_arm_counter" u16
      ∷ field "plog_lifetime" u32
      ∷ field "conf_mag_declination" i16
      ∷ field "conf_vbatscale" u8
      ∷ field "conf_vbatlevel_warn1" u8
      ∷ field "conf_vbatlevel_warn2" u8
      ∷ field "conf_vbatlevel_crit" u8
      ∷ [];
  items = none;
}

abbrev pub msp_altitude : Binding
msp_altitude = record {
  name = "MSP_ALTITUDE";
  fields = field "estalt" i32 ∷ field "vario" i16 ∷ [];
  items = none;
}

abbrev pub msp_raw_gps : Binding
msp_raw_gps = record {
  name = "MSP_RAW_GPS";
  fields =
      field "gps_fix" u8
      ∷ field "gps_numsat" u8
      ∷ field "gps_lat" i32
      ∷ field "gps_lon" i32
      ∷ field "gps_altitude" i16
      ∷ field "gps_speed" u16
      ∷ field "gps_ground_course" u16
      ∷ field "gps_hdop" u16
      ∷ [];
  items = none;
}

abbrev pub msp_attitude : Binding
msp_attitude = record {
  name = "MSP_ATTITUDE";
  fields = field "angx" i16 ∷ field "angy" i16 ∷ field "heading" i16 ∷ [];
  items = none;
}

abbrev pub msp_wp : Binding
msp_wp = record {
  name = "MSP_WP";
  fields =
      field "wp_no" u8
      ∷ field "action" u8
      ∷ field "lat" i32
      ∷ field "lon" i32
      ∷ field "altitude" i32
      ∷ field "p1" i16
      ∷ field "p2" i16
      ∷ field "p3" i16
      ∷ field "flag" u8
      ∷ [];
  items = none;
}

abbrev pub msp_n32_wp : Binding
msp_n32_wp = record {
  name = "MSP_N32_WP";
  fields =
      field "wp_no" u8
      ∷ field "lat" i32
      ∷ field "lon" i32
      ∷ field "alt" i32
      ∷ field "p1" i16
      ∷ field "p2" u16
      ∷ field "p3" u8
      ∷ [];
  items = none;
}

abbrev pub msp_nav_status : Binding
msp_nav_status = record {
  name = "MSP_NAV_STATUS";
  fields =
      field "gps_mode" u8
      ∷ field "nav_mode" u8
      ∷ field "action" u8
      ∷ field "wp_number" u8
      ∷ field "nav_error" u8
      ∷ field "target_bearing" u16
      ∷ [];
  items = none;
}

abbrev pub msp_nav_config : Binding
msp_nav_config = record {
  name = "MSP_NAV_CONFIG";
  fields =
      field "flag1" u8
      ∷ field "flag2" u8
      ∷ field "wp_radius" u16
      ∷ field "safe_wp_distance" u16
      ∷ field "nav_max_altitude" u16
      ∷ field "nav_speed_max" u16
      ∷ field "nav_speed_min" u16
      ∷ field "crosstrack_gain" u8
      ∷ field "nav_bank_max" u16
      ∷ field "rth_altitude" u16
      ∷ field "land_speed" u8
      ∷ field "fence" u16
      ∷ field "max_wp_number" u8
      ∷ [];
  items = none;
}

abbrev pub msp_rc_tuning : Binding
msp_rc_tuning = record {
  name = "MSP_RC_TUNING";
  fields =
      field "rc_rate" u8
      ∷ field "rc_expo" u8
      ∷ field "rollpitchrate" u8
      ∷ field "yawrate" u8
      ∷ field "dynthrpid" u8
      ∷ field "throttle_mid" u8
      ∷ field "throttle_expo" u8
      ∷ [];
  items = none;
}

abbrev pub msp_rc_tuning_cf : Binding
msp_rc_tuning_cf = record {
  name = "MSP_RC_TUNING_CF";
  fields =
      field "rc_rate" u8
      ∷ field "rc_expo" u8
      ∷ field "rollrate" u8
      ∷ field "pitchrate" u8
      ∷ field "yawrate" u8
      ∷ field "dynthrpid" u8
      ∷ field "throttle_mid" u8
      ∷ field "throttle_expo" u8
      ∷ field "tpa_breakpoint" u16
      ∷ field "yaw_expo" u8
      ∷ [];
  items = none;
}

abbrev pub msp_radio : Binding
msp_radio = record {
  name = "MSP_RADIO";
  fields =
      field "rxerrors" u16
      ∷ field "fixed_errors" u16
      ∷ field "localrssi" u8
      ∷ field "remrssi" u8
      ∷ field "txbuf" u8
      ∷ field "noise" u8
      ∷ field "remnoise" u8
      ∷ [];
  items = none;
}

abbrev pub msp_comp_gps : Binding
msp_comp_gps = record {
  name = "MSP_COMP_GPS";
  fields = field "range" u16 ∷ field "direction" i16 ∷ field "update" u8 ∷ [];
  items = none;
}

unfoldable pub first_vala_structs : List Binding
first_vala_structs =
    msp_ident ∷ msp_status ∷ msp_misc ∷ msp_altitude ∷ msp_raw_gps ∷ msp_attitude ∷ msp_wp
    ∷ msp_n32_wp ∷ msp_nav_status ∷ msp_nav_config ∷ msp_rc_tuning ∷ msp_rc_tuning_cf ∷ msp_radio
    ∷ msp_comp_gps ∷ []
