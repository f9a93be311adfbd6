-- ===== src/Web/Json/Tests.antt =====
-- Small documents.
use bdtrace.Common.{◌≡◌, refl, true, [], ◌∷◌, ◌++◌, some}
use bdtrace.Common.Int.{pos, negsuc}
use bdtrace.Common.Literals.{bytes}
use bdtrace.Web.Json.{
  new_writer, add, comma, hex_digit, unicode_escape, escape_char, escape_chars, escape, digits,
  from_last, decimal, int_text, val_raw, val_text, val_int, val_bool, null_val, key, open_with, pop,
  close_with, begin_object, end_object, begin_array, end_array,
}
use bdtrace.Web.Json.Strings.{c_string, read_string, read_string-escape}
use bdtrace.Web.Json.Document.{
  Value, null, text, int, bool, array, object, no_items, item, no_fields, field, write, print,
  wrote, write_lem,
}

abbrev process_value : Value
process_value = object (
    field (bytes "pid") (int (pos 120)) (
      field (bytes "files")
        (array (item (text (bytes "a\"b")) (item (int (negsuc 6)) (item null no_items))))
        (field (bytes "done") (bool true) no_fields)))

write-process :
    (write process_value new_writer).buf
    ≡ bytes "{\"pid\":120,\"files\":[\"a\\\"b\",-7,null],\"done\":true}"
unfolding write add comma hex_digit unicode_escape escape_char escape_chars escape digits from_last
    decimal int_text val_raw val_text val_int val_bool null_val key open_with pop close_with
    begin_object end_object begin_array end_array
write-process = refl

write_lem_example : write process_value new_writer ≡ wrote (print process_value) new_writer
write_lem_example = write_lem process_value new_writer

read_string-escape_example :
    read_string (escape (1 ∷ 10 ∷ 34 ∷ 200 ∷ []) ++ bytes ",7")
    ≡ some (c_string (1 ∷ 10 ∷ 34 ∷ 200 ∷ []), bytes ",7")
read_string-escape_example = read_string-escape (1 ∷ 10 ∷ 34 ∷ 200 ∷ []) (bytes ",7")
