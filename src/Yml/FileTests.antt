-- ===== src/Yml/FileTests.antt =====
-- The parser on the configuration of the server: the file conf/server.yml, and one that is written line by
-- line.
use local_server_c.Base.{◌≡◌, ◌≢◌, refl, some, true, false, List, [], ◌∷◌, ◌++◌, ℕ, pos, All, arith}
use local_server_c.Base.Text.{codes, c_str, same_text, ne_of_same_text}
use local_server_c.Yml.{Regex, int_bytes, convert, is_digit, is_space}
use local_server_c.Yml.Parser.{Parser, returned, initialised, init_yml_parser, exec_parser, get}
use local_server_c.Yml.Expressions.{
  is_key, is_text, span, newlines, unsigned, signed, quoted, value_of, after_colon, after_key,
  match_here, first_match,
}
use local_server_c.Yml.Lines.{Consists-every}
use local_server_c.Yml.Values.{Line, number, string, key_of, IsLine, stored_for}
use local_server_c.Yml.Matches.{render}
use local_server_c.Yml.Reading.{all_well, lookup, elements, elements_of, configuration}
use local_server_c.Yml.RoundTrip.{Has, get-written}

-- The two expressions.
abbrev pub expressions : Regex
expressions = record { compiles = λ k. true; exec = first_match }

abbrev conf_server : List ℕ
conf_server =
    codes "# Taille de la file des requ"
    ++ 195 ∷ 170 ∷ codes "tes du serveur\nslots: 256\n\n# Taille maximale d'une r"
    ++ 195
      ∷ 169
      ∷ codes "ponse (-1 si pas de limite)\nresponse_limit: -1\n\n# Indique si le serveur est un d"
    ++ 195 ∷ 169 ∷ codes "mon (0 si non, une autre valeur si oui)\ndaemon: 1\n\n# Timeout de r"
    ++ 195 ∷ 169 ∷ codes "ponse (En secondes)\nres_timeout: 5"

-- In the file of the repository the comments are passed over.
conf_server_read :
    configuration expressions (conf_server ++ 0 ∷ [])
    ≡ record { key = codes "slots"; value = int_bytes 256 }
      ∷ record { key = codes "response_limit"; value = int_bytes 4294967295 }
      ∷ record { key = codes "daemon"; value = int_bytes 1 }
      ∷ record { key = codes "res_timeout"; value = int_bytes 5 }
      ∷ []
unfolding elements_of elements first_match match_here after_key after_colon value_of quoted signed
    unsigned newlines span is_text is_key is_digit is_space c_str convert
conf_server_read = refl

-- A setting that is commented out is read all the same, and wins.
commented_out :
    lookup (codes "slots") (configuration expressions (codes "# slots: 12\nslots: 256\n" ++ 0 ∷ []))
    ≡ some (int_bytes 12)
unfolding lookup elements_of elements first_match match_here after_key after_colon value_of quoted
    signed unsigned newlines span is_text is_key is_digit is_space c_str same_text convert
commented_out = refl

abbrev pub slots : Line
slots = number (codes "slots") false 256

abbrev pub limit : Line
limit = number (codes "response_limit") true 1

abbrev pub title : Line
title = string (codes "title") (codes "my server")

abbrev pub daemon : Line
daemon = number (codes "daemon") false 0

abbrev pub timeout : Line
timeout = number (codes "res_timeout") false 5

abbrev pub server_lines : List Line
server_lines = slots ∷ limit ∷ title ∷ daemon ∷ timeout ∷ []

pub server_lines-IsLine : All IsLine server_lines
unfolding is_text is_key is_digit
server_lines-IsLine = (
  ((λ e. cc, Consists-every is_key (codes "slots") refl), omega arith),
  (
    ((λ e. cc, Consists-every is_key (codes "response_limit") refl), omega arith),
    (
      (
        (λ e. cc, Consists-every is_key (codes "title") refl),
        (λ e. cc, Consists-every is_text (codes "my server") refl),
      ),
      (
        ((λ e. cc, Consists-every is_key (codes "daemon") refl), omega arith),
        (((λ e. cc, Consists-every is_key (codes "res_timeout") refl), omega arith), tt),
      ),
    ),
  ),
)

unlike : (l : Line) (key : List ℕ) → same_text (key_of l) key ≡ false → key_of l ≢ key
unlike l key h = ne_of_same_text (key_of l) key h

pub slots-Has : Has server_lines slots
unfolding same_text
slots-Has = record {
  before = [];
  after = limit ∷ title ∷ daemon ∷ timeout ∷ [];
  split = refl;
  first = tt;
  last = (
    unlike limit (key_of slots) refl,
    (
      unlike title (key_of slots) refl,
      (unlike daemon (key_of slots) refl, (unlike timeout (key_of slots) refl, tt)),
    ),
  );
}

pub title-Has : Has server_lines title
unfolding same_text
title-Has = record {
  before = slots ∷ limit ∷ [];
  after = daemon ∷ timeout ∷ [];
  split = refl;
  first = (unlike slots (key_of title) refl, (unlike limit (key_of title) refl, tt));
  last = (unlike daemon (key_of title) refl, (unlike timeout (key_of title) refl, tt));
}

pub daemon-Has : Has server_lines daemon
unfolding same_text
daemon-Has = record {
  before = slots ∷ limit ∷ title ∷ [];
  after = timeout ∷ [];
  split = refl;
  first = (
    unlike slots (key_of daemon) refl,
    (unlike limit (key_of daemon) refl, (unlike title (key_of daemon) refl, tt)),
  );
  last = (unlike timeout (key_of daemon) refl, tt);
}

pub timeout-Has : Has server_lines timeout
unfolding same_text
timeout-Has = record {
  before = slots ∷ limit ∷ title ∷ daemon ∷ [];
  after = [];
  split = refl;
  first = (
    unlike slots (key_of timeout) refl,
    (
      unlike limit (key_of timeout) refl,
      (unlike title (key_of timeout) refl, (unlike daemon (key_of timeout) refl, tt)),
    ),
  );
  last = tt;
}

pub limit-Has : Has server_lines limit
unfolding same_text
limit-Has = record {
  before = slots ∷ [];
  after = title ∷ daemon ∷ timeout ∷ [];
  split = refl;
  first = (unlike slots (key_of limit) refl, tt);
  last = (
    unlike title (key_of limit) refl,
    (unlike daemon (key_of limit) refl, (unlike timeout (key_of limit) refl, tt)),
  );
}

get-written_example :
    (p : Parser) × (p' : Parser) × (init_yml_parser false (all_well (render server_lines))
      ≡ initialised p)
    × (exec_parser expressions false false p ≡ returned (pos 1) p')
    × (get (some p') (codes "title") false ≡ returned (pos 1) (stored_for title))
get-written_example =
    get-written expressions (λ kind s. refl) refl refl server_lines title server_lines-IsLine
      title-Has
