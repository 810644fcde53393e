-- ===== src/Main/Arguments.antt =====
-- The command line of src/main.rs against one written from settings, each in any of the spellings
-- that the help names or the code takes.
use nids.Prelude.{◌≡◌, refl, ap, ◌∙◌, arith, ◌||◌, none, some, List, [], ◌∷◌, if◌then◌else◌}
use nids.Parser.Link.{String}
use nids.Engine.Text.{text, string_equals}
use nids.Main.{Options, parse_args, flag_of, apply_flag, log}

pub data Spelling : Type 0 where
  interface_long interface_short : Spelling
  ip_long host_long ip_dash host_dash : Spelling
  port_long port_dash port_short : Spelling
  log_long log_short output_long output_short : Spelling

abbrev pub written : Spelling → String
written interface_long = text "--interface"
written interface_short = text "-i"
written ip_long = text "--ip"
written host_long = text "--host"
written ip_dash = text "-ip"
written host_dash = text "-host"
written port_long = text "--port"
written port_dash = text "-port"
written port_short = text "-p"
written log_long = text "--log"
written log_short = text "-l"
written output_long = text "--output"
written output_short = text "-o"

abbrev set_interface : String → Options → Options
set_interface v options = record options { interface_name = some v }

abbrev set_ip : String → Options → Options
set_ip v options = record options { forward_ip = some v }

abbrev set_port : String → Options → Options
set_port v options = record options { forward_port = some v }

-- The path none, or null, turns the log off.
abbrev set_log : String → Options → Options
set_log v options = record options {
  log_file_path =
      if string_equals v (text "none") || string_equals v (text "null") then none else some v;
}

-- The field that a spelling stands for is set, whatever it was.
abbrev pub set_field : Spelling → String → Options → Options
set_field interface_long v options = set_interface v options
set_field interface_short v options = set_interface v options
set_field ip_long v options = set_ip v options
set_field host_long v options = set_ip v options
set_field ip_dash v options = set_ip v options
set_field host_dash v options = set_ip v options
set_field port_long v options = set_port v options
set_field port_dash v options = set_port v options
set_field port_short v options = set_port v options
set_field log_long v options = set_log v options
set_field log_short v options = set_log v options
set_field output_long v options = set_log v options
set_field output_short v options = set_log v options

abbrev pub write_args : List (Spelling × String) → List String
write_args [] = []
write_args ((name, v) ∷ settings) = written name ∷ v ∷ write_args settings

-- The settings one after another: the last of a kind wins.
abbrev pub apply_settings : List (Spelling × String) → Options → Options
apply_settings [] options = options
apply_settings ((name, v) ∷ settings) options = apply_settings settings (set_field name v options)

apply_log : (v : String) (options : Options) → apply_flag log v options ≡ set_log v options
unfolding apply_flag
apply_log v options = ground arith

parse_args-written :
    (name : Spelling) (v : String) (rest : List String) (options : Options)
    → parse_args (written name ∷ v ∷ rest) options ≡ parse_args rest (set_field name v options)
unfolding parse_args flag_of apply_flag
parse_args-written interface_long v rest options = refl
parse_args-written interface_short v rest options = refl
parse_args-written ip_long v rest options = refl
parse_args-written host_long v rest options = refl
parse_args-written ip_dash v rest options = refl
parse_args-written host_dash v rest options = refl
parse_args-written port_long v rest options = refl
parse_args-written port_dash v rest options = refl
parse_args-written port_short v rest options = refl
parse_args-written log_long v rest options = ap (parse_args rest) (apply_log v options)
parse_args-written log_short v rest options = ap (parse_args rest) (apply_log v options)
parse_args-written output_long v rest options = ap (parse_args rest) (apply_log v options)
parse_args-written output_short v rest options = ap (parse_args rest) (apply_log v options)

-- A command line of settings, each in any spelling, is read as those fields set in order, the last
-- of a kind winning, even where a value looks like a flag.
pub parse_args-write_args :
    (settings : List (Spelling × String)) (options : Options)
    → parse_args (write_args settings) options ≡ some (apply_settings settings options)
unfolding parse_args
parse_args-write_args [] options = refl
parse_args-write_args ((name, v) ∷ settings) options =
    parse_args-written name v (write_args settings) options
    ∙ parse_args-write_args settings (set_field name v options)
