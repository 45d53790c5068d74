-- ===== src/Psip/Init.antt =====
-- src/atsc_psip.c: `atsc_init_tables`, which clears the tables.
use tsanalyze.Base.{[], none}
use tsanalyze.Table.Header.{zero_header}
use tsanalyze.Psip.Text.{no_strings}
use tsanalyze.Psip.Channel.{AtscVct}
use tsanalyze.Psip.Proc.{AtscPsip}

module _ {D : Type 0} where
  abbrev pub zero_vct : AtscVct D
  zero_vct = record {
    vct_header = zero_header;
    protocol_version = 0;
    num_channels_in_section = 0;
    channels = [];
    additional_descriptors_length = 0;
    list = [];
  }

  abbrev pub atsc_init_tables : AtscPsip D
  atsc_init_tables = record {
    stt = record {
      stt_header = zero_header;
      protocol_version = 0;
      system_time = 0;
      gps_utc_offset = 0;
      daylight_saving = 0;
      list = [];
    };
    mgt = record {
      mgt_header = zero_header;
      protocol_version = 0;
      tables_defined = 0;
      tables = [];
      descriptors_length = 0;
      list = [];
    };
    tvct = zero_vct;
    cvct = zero_vct;
    rrt = record {
      rrt_header = zero_header;
      protocol_version = 0;
      rating_region_name_length = 0;
      rating_region_name_text = no_strings 0;
      dimensions_defined = 0;
      descriptors_length = 0;
      list = [];
    };
    eit = record {
      eit_header = zero_header;
      protocol_version = 0;
      num_events_in_section = 0;
      events = [];
    };
    ett = record {
      ett_header = zero_header;
      protocol_version = 0;
      etm_id = 0;
      extended_text_message = none;
    };
    dcct = record {
      dcct_header = zero_header;
      protocol_version = 0;
      dcc_test_count = 0;
      dcc_tests = [];
      dcc_additional_descriptors_length = 0;
      list = [];
    };
    dccsct = record {
      dccsct_header = zero_header;
      protocol_version = 0;
      updates_defined = 0;
      updates = [];
      additional_descriptors_length = 0;
      list = [];
    };
    seen_mask = 0;
  }
