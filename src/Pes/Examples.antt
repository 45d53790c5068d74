-- ===== src/Pes/Examples.antt =====
-- src/pes.c: a header of zeros, for the tests.
use tsanalyze.Base.{replicate}
use tsanalyze.Pes.Header.{NonPs, PtsDts}

abbrev no_timestamp : PtsDts
no_timestamp = record { flag = 0; pts_dts_1 = 0; pts_dts_2 = 0; pts_dts_3 = 0 }

abbrev pub zeros : NonPs
zeros = record {
  pes_scrambling_control = 0;
  pes_priority = 0;
  data_alignment_indicator = 0;
  copyright = 0;
  original_or_copy = 0;
  pts_dts_flags = 0;
  escr_flag = 0;
  es_rate_flag = 0;
  dsm_trick_mode_flag = 0;
  additional_copy_info_flag = 0;
  pes_crc_flag = 0;
  pes_extension_flag = 0;
  pes_header_data_length = 0;
  pts = no_timestamp;
  dts = no_timestamp;
  escr = record { escr_base_1 = 0; escr_base_2 = 0; escr_base_3 = 0; escr_extension = 0 };
  es_rate = 0;
  trick_mode = record { dsm_trick_mode_control = 0; rep_cntrl = 0 };
  additional_copy_info = 0;
  previous_pes_packet_crc = 0;
  extension = record {
    pes_private_data_flag = 0;
    pack_header_field_flag = 0;
    program_packet_sequence_counter_flag = 0;
    p_std_buffer_flag = 0;
    pes_extension_flag_2 = 0;
    pes_private_data = replicate 16 0;
    pack_head_length = 0;
    ppsc = record {
      program_packet_sequence_counter = 0;
      mpeg1_mpeg2_identifier = 0;
      original_stuff_length = 0;
    };
    pstd_buffer = record { pstd_buffer_scale = 0; pstd_buffer_size = 0 };
    pes_extension_field_length = 0;
  };
}
