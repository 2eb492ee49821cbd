-- ===== src/Tests/SrtStats.antt =====
-- The statistics of an SRT socket, with a different number in every field.
use ffstream.Base.{◌≡◌, ℤ, pos}
use ffstream.Convert.SrtStats.{Tracebstats, OutputSrtStats}
use ffstream.Convert.SrtStats.Functions.{
  output_srt_stats_to_grpc, output_srt_stats_from_grpc, srt_stats-from-to,
}

-- Numbers stand for `float64`.
abbrev pub stats : Tracebstats ℤ
stats = record {
  ms_time_stamp = pos 0;
  pkt_sent_total = pos 1;
  pkt_recv_total = pos 2;
  pkt_snd_loss_total = pos 3;
  pkt_rcv_loss_total = pos 4;
  pkt_retrans_total = pos 5;
  pkt_sent_ack_total = pos 6;
  pkt_recv_ack_total = pos 7;
  pkt_sent_nak_total = pos 8;
  pkt_recv_nak_total = pos 9;
  us_snd_duration_total = pos 10;
  pkt_snd_drop_total = pos 11;
  pkt_rcv_drop_total = pos 12;
  pkt_rcv_undecrypt_total = pos 13;
  byte_sent_total = 14;
  byte_recv_total = 15;
  byte_rcv_loss_total = 16;
  byte_retrans_total = 17;
  byte_snd_drop_total = 18;
  byte_rcv_drop_total = 19;
  byte_rcv_undecrypt_total = 20;
  pkt_sent = pos 21;
  pkt_recv = pos 22;
  pkt_snd_loss = pos 23;
  pkt_rcv_loss = pos 24;
  pkt_retrans = pos 25;
  pkt_rcv_retrans = pos 26;
  pkt_sent_ack = pos 27;
  pkt_recv_ack = pos 28;
  pkt_sent_nak = pos 29;
  pkt_recv_nak = pos 30;
  mbps_send_rate = pos 31;
  mbps_recv_rate = pos 32;
  us_snd_duration = pos 33;
  pkt_reorder_distance = pos 34;
  pkt_rcv_avg_belated_time = pos 35;
  pkt_rcv_belated = pos 36;
  pkt_snd_drop = pos 37;
  pkt_rcv_drop = pos 38;
  pkt_rcv_undecrypt = pos 39;
  byte_sent = 40;
  byte_recv = 41;
  byte_rcv_loss = 42;
  byte_retrans = 43;
  byte_snd_drop = 44;
  byte_rcv_drop = 45;
  byte_rcv_undecrypt = 46;
  us_pkt_snd_period = pos 47;
  pkt_flow_window = pos 48;
  pkt_congestion_window = pos 49;
  pkt_flight_size = pos 50;
  ms_rtt = pos 51;
  mbps_bandwidth = pos 52;
  byte_avail_snd_buf = pos 53;
  byte_avail_rcv_buf = pos 54;
  mbps_max_bw = pos 55;
  byte_mss = pos 56;
  pkt_snd_buf = pos 57;
  byte_snd_buf = pos 58;
  ms_snd_buf = pos 59;
  ms_snd_tsb_pd_delay = pos 60;
  pkt_rcv_buf = pos 61;
  byte_rcv_buf = pos 62;
  ms_rcv_buf = pos 63;
  ms_rcv_tsb_pd_delay = pos 64;
  pkt_snd_filter_extra_total = pos 65;
  pkt_rcv_filter_extra_total = pos 66;
  pkt_rcv_filter_supply_total = pos 67;
  pkt_rcv_filter_loss_total = pos 68;
  pkt_snd_filter_extra = pos 69;
  pkt_rcv_filter_extra = pos 70;
  pkt_rcv_filter_supply = pos 71;
  pkt_rcv_filter_loss = pos 72;
  pkt_reorder_tolerance = pos 73;
  pkt_sent_unique_total = pos 74;
  pkt_recv_unique_total = pos 75;
  byte_sent_unique_total = 76;
  byte_recv_unique_total = 77;
  pkt_sent_unique = pos 78;
  pkt_recv_unique = pos 79;
  byte_sent_unique = 80;
  byte_recv_unique = 81;
}

abbrev pub reply : OutputSrtStats ℤ
reply = record {
  ms_time_stamp = pos 0;
  pkt_sent_total = pos 1;
  pkt_recv_total = pos 2;
  pkt_snd_loss_total = pos 3;
  pkt_rcv_loss_total = pos 4;
  pkt_retrans_total = pos 5;
  pkt_sent_ack_total = pos 6;
  pkt_recv_ack_total = pos 7;
  pkt_sent_nak_total = pos 8;
  pkt_recv_nak_total = pos 9;
  us_snd_duration_total = pos 10;
  pkt_snd_drop_total = pos 11;
  pkt_rcv_drop_total = pos 12;
  pkt_rcv_undecrypt_total = pos 13;
  byte_sent_total = 14;
  byte_recv_total = 15;
  byte_rcv_loss_total = 16;
  byte_retrans_total = 17;
  byte_snd_drop_total = 18;
  byte_rcv_drop_total = 19;
  byte_rcv_undecrypt_total = 20;
  pkt_sent = pos 21;
  pkt_recv = pos 22;
  pkt_snd_loss = pos 23;
  pkt_rcv_loss = pos 24;
  pkt_retrans = pos 25;
  pkt_rcv_retrans = pos 26;
  pkt_sent_ack = pos 27;
  pkt_recv_ack = pos 28;
  pkt_sent_nak = pos 29;
  pkt_recv_nak = pos 30;
  mbps_send_rate = pos 31;
  mbps_recv_rate = pos 32;
  us_snd_duration = pos 33;
  pkt_reorder_distance = pos 34;
  pkt_rcv_avg_belated_time = pos 35;
  pkt_rcv_belated = pos 36;
  pkt_snd_drop = pos 37;
  pkt_rcv_drop = pos 38;
  pkt_rcv_undecrypt = pos 39;
  byte_sent = 40;
  byte_recv = 41;
  byte_rcv_loss = 42;
  byte_retrans = 43;
  byte_snd_drop = 44;
  byte_rcv_drop = 45;
  byte_rcv_undecrypt = 46;
  us_pkt_snd_period = pos 47;
  pkt_flow_window = pos 48;
  pkt_congestion_window = pos 49;
  pkt_flight_size = pos 50;
  ms_rtt = pos 51;
  mbps_bandwidth = pos 52;
  byte_avail_snd_buf = pos 53;
  byte_avail_rcv_buf = pos 54;
  mbps_max_bw = pos 55;
  byte_mss = pos 56;
  pkt_snd_buf = pos 57;
  byte_snd_buf = pos 58;
  ms_snd_buf = pos 59;
  ms_snd_tsb_pd_delay = pos 60;
  pkt_rcv_buf = pos 61;
  byte_rcv_buf = pos 62;
  ms_rcv_buf = pos 63;
  ms_rcv_tsb_pd_delay = pos 64;
  pkt_snd_filter_extra_total = pos 65;
  pkt_rcv_filter_extra_total = pos 66;
  pkt_rcv_filter_supply_total = pos 67;
  pkt_rcv_filter_loss_total = pos 68;
  pkt_snd_filter_extra = pos 69;
  pkt_rcv_filter_extra = pos 70;
  pkt_rcv_filter_supply = pos 71;
  pkt_rcv_filter_loss = pos 72;
  pkt_reorder_tolerance = pos 73;
  pkt_sent_unique_total = pos 74;
  pkt_recv_unique_total = pos 75;
  byte_sent_unique_total = 76;
  byte_recv_unique_total = 77;
  pkt_sent_unique = pos 78;
  pkt_recv_unique = pos 79;
  byte_sent_unique = 80;
  byte_recv_unique = 81;
}

srt_stats-from-to_test :
    (output_srt_stats_from_grpc (output_srt_stats_to_grpc stats) ≡ stats)
    × (output_srt_stats_to_grpc (output_srt_stats_from_grpc reply) ≡ reply)
srt_stats-from-to_test = srt_stats-from-to stats reply
