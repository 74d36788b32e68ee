-- ===== src/Tests/Outputs.antt =====
-- The layout of the IO data, the output builder, and writes of the application.
use profinet_rs.Prelude.{◌≡◌, ◌≢◌, none, some, [], ◌∷◌, ◌++◌, ◌>>=◌, Yields}
use profinet_rs.Rt.Builder
use profinet_rs.Rt.Builder.Inv.{IsSound}
use profinet_rs.Tests.Samples.{
  slots, input_config, output_config, output_object, output_object-found, diagnostic_object-found,
  builder-IsSound,
}
use profinet_rs.Rt.Config.Layout.{Laid, build_iocr_configs-Laid}
use profinet_rs.Rt.Builder.{find_object}
use profinet_rs.Rt.Builder.Region.{region}
use profinet_rs.Rt.Builder.Data.{get_data-set_data}
use profinet_rs.Rt.Builder.Swap.{run, run-IsSound, op_set_data, op_swap, op_clear}

new_object-found : find_object (Builder.new output_config).config.objects 1 1 ≡ some output_object
unfolding Builder.new
new_object-found = output_object-found

new_object-known : find_object (Builder.new output_config).config.objects 1 1 ≢ none
new_object-known e = let found = new_object-found in cc

new_diagnostic-known : find_object (Builder.new output_config).config.objects 2 1 ≢ none
unfolding Builder.new
new_diagnostic-known = diagnostic_object-found

build_iocr_configs-Laid_example :
    Laid 0 input_config.objects input_config.data_length
    × Laid 0 output_config.objects output_config.data_length
build_iocr_configs-Laid_example = build_iocr_configs-Laid slots 0x8001 0x8002 32 32 3

get_data-set_data_example :
    Yields
      (Builder.set_data (Builder.new output_config) 1 1 (9 ∷ []) >>= λ b. Builder.get_data b 1 1)
      (λ r. r ≡ (9 ∷ []) ++ region (Builder.new output_config).write_buffer 1 1)
get_data-set_data_example = get_data-set_data builder-IsSound 1 1 (9 ∷ []) new_object-found

run-IsSound_example :
    Yields
      (run
        (Builder.new output_config)
        (op_set_data 1 1 (9 ∷ []) ∷ op_swap ∷ op_set_data 7 7 [] ∷ op_clear ∷ []))
      (IsSound output_config)
run-IsSound_example =
    run-IsSound (op_set_data 1 1 (9 ∷ []) ∷ op_swap ∷ op_set_data 7 7 [] ∷ op_clear ∷ [])
      builder-IsSound
