-- ===== src/Response/Tests.antt =====
-- The theorem of response.go at concrete inputs.
use skyl.Prelude.{plus_int64, pos, ◌≡◌, refl}
use skyl.Response.{Usage, add, total_tokens}

abbrev cached : Usage
cached = record {
  input_tokens = pos 100;
  output_tokens = pos 7;
  cache_read_tokens = pos 80;
  cache_write_tokens = pos 5;
}

cached_total : total_tokens (add cached cached) ≡ pos 214
unfolding total_tokens add plus_int64
cached_total = refl
