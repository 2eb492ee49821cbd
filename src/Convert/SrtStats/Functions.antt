-- ===== src/Convert/SrtStats/Functions.antt =====
-- goconv/srt_stats.go: the two conversions. `int` has 64 bits, so that `int64(…)` and `int(…)` keep
-- the value.
use ffstream.Base.{◌≡◌, refl}
use ffstream.Convert.SrtStats.{Tracebstats, OutputSrtStats}

module _ {Float : Type 0} where
  -- `OutputSRTStatsToGRPC`
  unfoldable pub output_srt_stats_to_grpc : Tracebstats Float → OutputSrtStats Float
  output_srt_stats_to_grpc stats = record {
    ms_time_stamp = stats.ms_time_stamp;
    pkt_sent_total = stats.pkt_sent_total;
    pkt_recv_total = stats.pkt_recv_total;
    pkt_snd_loss_total = stats.pkt_snd_loss_total;
    pkt_rcv_loss_total = stats.pkt_rcv_loss_total;
    pkt_retrans_total = stats.pkt_retrans_total;
    pkt_sent_ack_total = stats.pkt_sent_ack_total;
    pkt_recv_ack_total = stats.pkt_recv_ack_total;
    pkt_sent_nak_total = stats.pkt_sent_nak_total;
    pkt_recv_nak_total = stats.pkt_recv_nak_total;
    us_snd_duration_total = stats.us_snd_duration_total;
    pkt_snd_drop_total = stats.pkt_snd_drop_total;
    pkt_rcv_drop_total = stats.pkt_rcv_drop_total;
    pkt_rcv_undecrypt_total = stats.pkt_rcv_undecrypt_total;
    byte_sent_total = stats.byte_sent_total;
    byte_recv_total = stats.byte_recv_total;
    byte_rcv_loss_total = stats.byte_rcv_loss_total;
    byte_retrans_total = stats.byte_retrans_total;
    byte_snd_drop_total = stats.byte_snd_drop_total;
    byte_rcv_drop_total = stats.byte_rcv_drop_total;
    byte_rcv_undecrypt_total = stats.byte_rcv_undecrypt_total;
    pkt_sent = stats.pkt_sent;
    pkt_recv = stats.pkt_recv;
    pkt_snd_loss = stats.pkt_snd_loss;
    pkt_rcv_loss = stats.pkt_rcv_loss;
    pkt_retrans = stats.pkt_retrans;
    pkt_rcv_retrans = stats.pkt_rcv_retrans;
    pkt_sent_ack = stats.pkt_sent_ack;
    pkt_recv_ack = stats.pkt_recv_ack;
    pkt_sent_nak = stats.pkt_sent_nak;
    pkt_recv_nak = stats.pkt_recv_nak;
    mbps_send_rate = stats.mbps_send_rate;
    mbps_recv_rate = stats.mbps_recv_rate;
    us_snd_duration = stats.us_snd_duration;
    pkt_reorder_distance = stats.pkt_reorder_distance;
    pkt_rcv_avg_belated_time = stats.pkt_rcv_avg_belated_time;
    pkt_rcv_belated = stats.pkt_rcv_belated;
    pkt_snd_drop = stats.pkt_snd_drop;
    pkt_rcv_drop = stats.pkt_rcv_drop;
    pkt_rcv_undecrypt = stats.pkt_rcv_undecrypt;
    byte_sent = stats.byte_sent;
    byte_recv = stats.byte_recv;
    byte_rcv_loss = stats.byte_rcv_loss;
    byte_retrans = stats.byte_retrans;
    byte_snd_drop = stats.byte_snd_drop;
    byte_rcv_drop = stats.byte_rcv_drop;
    byte_rcv_undecrypt = stats.byte_rcv_undecrypt;
    us_pkt_snd_period = stats.us_pkt_snd_period;
    pkt_flow_window = stats.pkt_flow_window;
    pkt_congestion_window = stats.pkt_congestion_window;
    pkt_flight_size = stats.pkt_flight_size;
    ms_rtt = stats.ms_rtt;
    mbps_bandwidth = stats.mbps_bandwidth;
    byte_avail_snd_buf = stats.byte_avail_snd_buf;
    byte_avail_rcv_buf = stats.byte_avail_rcv_buf;
    mbps_max_bw = stats.mbps_max_bw;
    byte_mss = stats.byte_mss;
    pkt_snd_buf = stats.pkt_snd_buf;
    byte_snd_buf = stats.byte_snd_buf;
    ms_snd_buf = stats.ms_snd_buf;
    ms_snd_tsb_pd_delay = stats.ms_snd_tsb_pd_delay;
    pkt_rcv_buf = stats.pkt_rcv_buf;
    byte_rcv_buf = stats.byte_rcv_buf;
    ms_rcv_buf = stats.ms_rcv_buf;
    ms_rcv_tsb_pd_delay = stats.ms_rcv_tsb_pd_delay;
    pkt_snd_filter_extra_total = stats.pkt_snd_filter_extra_total;
    pkt_rcv_filter_extra_total = stats.pkt_rcv_filter_extra_total;
    pkt_rcv_filter_supply_total = stats.pkt_rcv_filter_supply_total;
    pkt_rcv_filter_loss_total = stats.pkt_rcv_filter_loss_total;
    pkt_snd_filter_extra = stats.pkt_snd_filter_extra;
    pkt_rcv_filter_extra = stats.pkt_rcv_filter_extra;
    pkt_rcv_filter_supply = stats.pkt_rcv_filter_supply;
    pkt_rcv_filter_loss = stats.pkt_rcv_filter_loss;
    pkt_reorder_tolerance = stats.pkt_reorder_tolerance;
    pkt_sent_unique_total = stats.pkt_sent_unique_total;
    pkt_recv_unique_total = stats.pkt_recv_unique_total;
    byte_sent_unique_total = stats.byte_sent_unique_total;
    byte_recv_unique_total = stats.byte_recv_unique_total;
    pkt_sent_unique = stats.pkt_sent_unique;
    pkt_recv_unique = stats.pkt_recv_unique;
    byte_sent_unique = stats.byte_sent_unique;
    byte_recv_unique = stats.byte_recv_unique;
  }

  -- `OutputSRTStatsFromGRPC`
  unfoldable pub output_srt_stats_from_grpc : OutputSrtStats Float → Tracebstats Float
  output_srt_stats_from_grpc stats = record {
    ms_time_stamp = stats.ms_time_stamp;
    pkt_sent_total = stats.pkt_sent_total;
    pkt_recv_total = stats.pkt_recv_total;
    pkt_snd_loss_total = stats.pkt_snd_loss_total;
    pkt_rcv_loss_total = stats.pkt_rcv_loss_total;
    pkt_retrans_total = stats.pkt_retrans_total;
    pkt_sent_ack_total = stats.pkt_sent_ack_total;
    pkt_recv_ack_total = stats.pkt_recv_ack_total;
    pkt_sent_nak_total = stats.pkt_sent_nak_total;
    pkt_recv_nak_total = stats.pkt_recv_nak_total;
    us_snd_duration_total = stats.us_snd_duration_total;
    pkt_snd_drop_total = stats.pkt_snd_drop_total;
    pkt_rcv_drop_total = stats.pkt_rcv_drop_total;
    pkt_rcv_undecrypt_total = stats.pkt_rcv_undecrypt_total;
    byte_sent_total = stats.byte_sent_total;
    byte_recv_total = stats.byte_recv_total;
    byte_rcv_loss_total = stats.byte_rcv_loss_total;
    byte_retrans_total = stats.byte_retrans_total;
    byte_snd_drop_total = stats.byte_snd_drop_total;
    byte_rcv_drop_total = stats.byte_rcv_drop_total;
    byte_rcv_undecrypt_total = stats.byte_rcv_undecrypt_total;
    pkt_sent = stats.pkt_sent;
    pkt_recv = stats.pkt_recv;
    pkt_snd_loss = stats.pkt_snd_loss;
    pkt_rcv_loss = stats.pkt_rcv_loss;
    pkt_retrans = stats.pkt_retrans;
    pkt_rcv_retrans = stats.pkt_rcv_retrans;
    pkt_sent_ack = stats.pkt_sent_ack;
    pkt_recv_ack = stats.pkt_recv_ack;
    pkt_sent_nak = stats.pkt_sent_nak;
    pkt_recv_nak = stats.pkt_recv_nak;
    mbps_send_rate = stats.mbps_send_rate;
    mbps_recv_rate = stats.mbps_recv_rate;
    us_snd_duration = stats.us_snd_duration;
    pkt_reorder_distance = stats.pkt_reorder_distance;
    pkt_rcv_avg_belated_time = stats.pkt_rcv_avg_belated_time;
    pkt_rcv_belated = stats.pkt_rcv_belated;
    pkt_snd_drop = stats.pkt_snd_drop;
    pkt_rcv_drop = stats.pkt_rcv_drop;
    pkt_rcv_undecrypt = stats.pkt_rcv_undecrypt;
    byte_sent = stats.byte_sent;
    byte_recv = stats.byte_recv;
    byte_rcv_loss = stats.byte_rcv_loss;
    byte_retrans = stats.byte_retrans;
    byte_snd_drop = stats.byte_snd_drop;
    byte_rcv_drop = stats.byte_rcv_drop;
    byte_rcv_undecrypt = stats.byte_rcv_undecrypt;
    us_pkt_snd_period = stats.us_pkt_snd_period;
    pkt_flow_window = stats.pkt_flow_window;
    pkt_congestion_window = stats.pkt_congestion_window;
    pkt_flight_size = stats.pkt_flight_size;
    ms_rtt = stats.ms_rtt;
    mbps_bandwidth = stats.mbps_bandwidth;
    byte_avail_snd_buf = stats.byte_avail_snd_buf;
    byte_avail_rcv_buf = stats.byte_avail_rcv_buf;
    mbps_max_bw = stats.mbps_max_bw;
    byte_mss = stats.byte_mss;
    pkt_snd_buf = stats.pkt_snd_buf;
    byte_snd_buf = stats.byte_snd_buf;
    ms_snd_buf = stats.ms_snd_buf;
    ms_snd_tsb_pd_delay = stats.ms_snd_tsb_pd_delay;
    pkt_rcv_buf = stats.pkt_rcv_buf;
    byte_rcv_buf = stats.byte_rcv_buf;
    ms_rcv_buf = stats.ms_rcv_buf;
    ms_rcv_tsb_pd_delay = stats.ms_rcv_tsb_pd_delay;
    pkt_snd_filter_extra_total = stats.pkt_snd_filter_extra_total;
    pkt_rcv_filter_extra_total = stats.pkt_rcv_filter_extra_total;
    pkt_rcv_filter_supply_total = stats.pkt_rcv_filter_supply_total;
    pkt_rcv_filter_loss_total = stats.pkt_rcv_filter_loss_total;
    pkt_snd_filter_extra = stats.pkt_snd_filter_extra;
    pkt_rcv_filter_extra = stats.pkt_rcv_filter_extra;
    pkt_rcv_filter_supply = stats.pkt_rcv_filter_supply;
    pkt_rcv_filter_loss = stats.pkt_rcv_filter_loss;
    pkt_reorder_tolerance = stats.pkt_reorder_tolerance;
    pkt_sent_unique_total = stats.pkt_sent_unique_total;
    pkt_recv_unique_total = stats.pkt_recv_unique_total;
    byte_sent_unique_total = stats.byte_sent_unique_total;
    byte_recv_unique_total = stats.byte_recv_unique_total;
    pkt_sent_unique = stats.pkt_sent_unique;
    pkt_recv_unique = stats.pkt_recv_unique;
    byte_sent_unique = stats.byte_sent_unique;
    byte_recv_unique = stats.byte_recv_unique;
  }

-- The 82 statistics of a socket come back from their message as they were, and so do those of a
-- message from the statistics: no field is lost or exchanged with another.
pub srt_stats-from-to :
    {Float : Type 0} (stats : Tracebstats Float) (reply : OutputSrtStats Float)
    → (output_srt_stats_from_grpc (output_srt_stats_to_grpc stats) ≡ stats)
      × (output_srt_stats_to_grpc (output_srt_stats_from_grpc reply) ≡ reply)
unfolding output_srt_stats_from_grpc output_srt_stats_to_grpc
srt_stats-from-to stats reply = (refl, refl)
