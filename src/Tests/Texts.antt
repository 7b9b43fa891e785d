-- ===== src/Tests/Texts.antt =====
-- The escapes and paths of src/utils.cc.
use kcov.Prelude.{ascii, ◌+◌, ◌≤◌, ◌≡◌, refl, true, false, some, [], ◌∷◌, ◌++◌, length, All}
use kcov.Strings.Escape.{
  escape_html, html_loop, html_part, html_char, c_string, escape_json, json_loop, json_char,
  n_escapes, all_plain, all_plain-escape_html, html_loop_fits,
}
use kcov.Strings.Literal.{InLine, read_literal, read_literal-escape_json}
use kcov.Strings.Paths.{split_path, rfind}

html_of_tag : escape_html (ascii "<b>") ≡ ascii "&lt;b&gt;"
unfolding escape_html html_loop html_part html_char c_string
html_of_tag = refl

json_of_tab : escape_json (9 ∷ b'"' ∷ []) ≡ ascii "\\t\\\""
unfolding escape_json json_loop json_char n_escapes
json_of_tab = refl

dir_of_path : split_path (ascii "/tmp/a.c") ≡ (ascii "/tmp/", ascii "a.c")
unfolding split_path rfind
dir_of_path = refl

all_plain-escape_html_example : all_plain (escape_html (ascii "a < 'b'")) ≡ true
all_plain-escape_html_example = all_plain-escape_html (ascii "a < 'b'")

html_loop_fits_example : length (html_loop (html_part (ascii "\"\""))) + 1 ≤ 4096
html_loop_fits_example = html_loop_fits (ascii "\"\"")

plain_text : All InLine (ascii "a\t'b\\c")
plain_text = (refl, (refl, (refl, (refl, (refl, (refl, tt))))))

read_literal-escape_json_example :
    read_literal false (escape_json (ascii "a\t'b\\c") ++ b'"' ∷ ascii ",1")
    ≡ some (ascii "a\t'b\\c", ascii ",1")
read_literal-escape_json_example =
    read_literal-escape_json (ascii "a\t'b\\c") (ascii ",1") plain_text
