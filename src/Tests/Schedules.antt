-- ===== src/Tests/Schedules.antt =====
-- The further outputs of `Start`, for two resolutions.
use ffstream.Base.{◌≡◌, ◌⊎◌, true, false, [], ◌∷◌, All, length}
use ffstream.Transcoder.{Resolution}
use ffstream.Sender.{SenderKey}
use ffstream.Sender.Output.{different_outputs_same_tracks}
use ffstream.Stream.Start.MoreOutputs.{
  Creation, with_resolution, creation, at, output_key, ask, round, create, Steps, done, more,
  IsFinished,
}
use ffstream.Stream.Start.Schedules.{late_goroutines}
use ffstream.Stream.Start.WaitGroup.{
  Group, group, group_start, looping, passed, add_round, add_bypass, begin_output, returned, waited,
  GroupMoves, group_unmoved, group_moved,
}
use ffstream.Stream.Start.WaitGroup.Laws.{HasWaited, GoesOn, wait_group_lem}
use ffstream.Stream.Start.Requests.{IsWanted, IsAmong, steps-IsWanted}

abbrev low : Resolution
low = record { width = 640; height = 360 }

abbrev high : Resolution
high = record { width = 1920; height = 1080 }

abbrev key : SenderKey
key = record {
  audio_codec = "aac";
  audio_sample_rate = 48_000;
  video_codec = "libx264";
  video_resolution = high;
}

-- Each goroutine runs before the next round.
abbrev eager : Creation
eager =
    at (with_resolution key high) [] 0 true
      (with_resolution key low ∷ with_resolution key high ∷ [])

abbrev eager_run : Steps different_outputs_same_tracks 4 (creation key (low ∷ high ∷ []) true) eager
unfolding output_key ask
eager_run = more 3 _ _ _ (round key low (high ∷ []) 0 true []) (
    more 2 _ _ _ (create _ (high ∷ []) 0 true []) (
      more 1 _ _ _ (round _ high [] 0 true (with_resolution key low ∷ []))
        (more 0 _ _ _ (create _ [] 0 true (with_resolution key low ∷ [])) (done _))))

-- The goroutine for one resolution begins and returns before `Start` waits.
abbrev waited_once : Group
waited_once =
    group (at (with_resolution key low) [] 0 false (with_resolution key low ∷ [])) passed 0 0

once-GroupMoves :
    GroupMoves different_outputs_same_tracks (group_start key (low ∷ []) false) waited_once
unfolding output_key ask
once-GroupMoves =
    group_moved _ _ _
      (group_moved _ _ _
        (group_moved _ _ _
          (group_moved _ _ _
            (group_moved _ _ _ (group_unmoved (group_start key (low ∷ []) false))
              (add_round key low [] 0 false [] 0 0))
            (begin_output (with_resolution key low) [] 0 false [] looping 1 0))
          (returned (at (with_resolution key low) [] 0 false (with_resolution key low ∷ [])) looping
            0 0))
        (add_bypass (with_resolution key low) 0 false (with_resolution key low ∷ []) 0 0))
      (waited (at (with_resolution key low) [] 0 false (with_resolution key low ∷ [])) 0)

wait_group_lem_example :
    HasWaited different_outputs_same_tracks 1 waited_once
    ⊎ GoesOn different_outputs_same_tracks waited_once
wait_group_lem_example =
    wait_group_lem different_outputs_same_tracks key (low ∷ []) false waited_once once-GroupMoves

steps-IsWanted_example : All (IsWanted key (IsAmong (low ∷ high ∷ []))) eager.requests
steps-IsWanted_example =
    steps-IsWanted different_outputs_same_tracks key (low ∷ high ∷ []) true 4 eager eager_run

late_goroutines_example :
    (c : Creation) × Steps different_outputs_same_tracks 4 (creation key (low ∷ high ∷ []) false) c
    × IsFinished c
    × All (λ k. k ≡ with_resolution key high) c.requests
    × (length c.requests ≡ 2)
late_goroutines_example = late_goroutines key (low ∷ []) high
