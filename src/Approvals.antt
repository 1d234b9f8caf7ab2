-- ===== src/Approvals.antt =====
-- cognitrix/safety/destructive_ops.py: how risky a call of a tool is. `str.lower`, the whole-word
-- search of `re` and the test whether a text contains another are parameters; the text is the tool's
-- name and its arguments as Python prints them. The gate that asks the user is in Approvals/Gate.
pub mod Gate
pub mod Granted
pub mod Cached
pub mod Answers
pub mod History
pub mod Risk
pub mod Calls
mod Tests
use Prim.Native.String.{◌++◌ as append}
use cognitrix.Prelude.{
  ℕ, String, Bool, true, false, ◌||◌, List, [], ◌∷◌, ltb, if◌then◌else◌, ◌++◌, not,
}

pub data RiskLevel : Type 0 where
  low medium high : RiskLevel

-- `_RISK_ORDER`
abbrev pub risk_order : RiskLevel → ℕ
risk_order low = 0
risk_order medium = 1
risk_order high = 2

pub record Category : Type 0 where
  pub name : String
  pub tools : List String
  pub keywords : List String
  pub risk_level : RiskLevel
  pub description : String

abbrev pub file_deletion : Category
file_deletion = record {
  name = "file_deletion";
  tools = "delete_path" ∷ "delete path" ∷ "remove_file" ∷ "delete_file" ∷ "remove path" ∷ [];
  keywords =
      "delete" ∷ "remove" ∷ "rm " ∷ "del " ∷ "destroy" ∷ "eliminate" ∷ "erase" ∷ "wipe" ∷ "purge"
      ∷ "clean" ∷ "clear" ∷ [];
  risk_level = high;
  description = "File or directory deletion";
}

abbrev pub file_modification : Category
file_modification = record {
  name = "file_modification";
  tools = "update_file" ∷ "write_file" ∷ "overwrite_file" ∷ "write" ∷ "edit" ∷ [];
  keywords =
      "overwrite" ∷ "replace" ∷ "modify" ∷ "edit" ∷ "change" ∷ "update" ∷ "rewrite" ∷ "truncate"
      ∷ [];
  risk_level = medium;
  description = "File content modification";
}

abbrev pub code_execution : Category
code_execution = record {
  name = "code_execution";
  tools = "bash" ∷ "execute_code" ∷ [];
  keywords =
      "exec" ∷ "eval" ∷ "execfile" ∷ "compile" ∷ "__import__" ∷ "subprocess" ∷ "os.system"
      ∷ "os.popen" ∷ "spawn" ∷ "rm -rf" ∷ "format c:" ∷ "dd if=" ∷ "del /f /s" ∷ "shutdown"
      ∷ "reboot" ∷ "halt" ∷ [];
  risk_level = high;
  description = "Arbitrary code execution";
}

abbrev pub system_modification : Category
system_modification = record {
  name = "system_modification";
  tools = "create_file" ∷ "create_directory" ∷ "mkdir" ∷ [];
  keywords =
      "sudo" ∷ "chmod" ∷ "chown" ∷ "chgrp" ∷ "install" ∷ "pip install" ∷ "npm install" ∷ "apt-get"
      ∷ "yum" ∷ "registry" ∷ "system32" ∷ "etc/" ∷ "bin/" ∷ [];
  risk_level = medium;
  description = "System configuration modification";
}

abbrev pub network_external : Category
network_external = record {
  name = "network_external";
  tools = "Search" ∷ "WebFetch" ∷ "open_website" ∷ [];
  keywords =
      "post" ∷ "send" ∷ "submit" ∷ "upload" ∷ "download" ∷ "curl" ∷ "wget" ∷ "fetch" ∷ "request"
      ∷ [];
  risk_level = low;
  description = "External network communication";
}

abbrev pub data_exposure : Category
data_exposure = record {
  name = "data_exposure";
  tools = [];
  keywords =
      "password" ∷ "secret" ∷ "key" ∷ "token" ∷ "credential" ∷ "api_key" ∷ "private_key" ∷ ".env"
      ∷ "config" ∷ [];
  risk_level = high;
  description = "Potential sensitive data exposure";
}

-- `DESTRUCTIVE_CATEGORIES`
abbrev pub destructive_categories : List Category
destructive_categories =
    file_deletion ∷ file_modification ∷ code_execution ∷ system_modification ∷ network_external
    ∷ data_exposure ∷ []

pub record RiskAssessment : Type 0 where
  pub risk_level : RiskLevel
  pub categories : List String
  pub details : List String

abbrev pub any_text : (String → Bool) → List String → Bool
any_text p [] = false
any_text p (s ∷ rest) = p s || any_text p rest

abbrev pub higher : RiskLevel → RiskLevel → RiskLevel
higher level risk = if ltb (risk_order risk) (risk_order level) then level else risk

-- One turn of the loop of `analyze`.
abbrev pub count_category : Category → RiskAssessment → Bool → RiskAssessment
count_category category a false = a
count_category category a true = record {
  risk_level = higher category.risk_level a.risk_level;
  categories = a.categories ++ category.name ∷ [];
  details = a.details ++ category.description ∷ [];
}

module _ (lower : String → String) (has_word contains : String → String → Bool) where
  -- Whether a category is found in the lowered name and text of a call.
  abbrev pub detected : Category → String → String → Bool
  detected category name combined =
      any_text (λ t. has_word name t) category.tools
      || any_text (λ k. contains combined k) category.keywords

  pub analyze_loop : String → String → List Category → RiskAssessment → RiskAssessment
  analyze_loop name combined [] a = a
  analyze_loop name combined (category ∷ rest) a =
      analyze_loop name combined rest (count_category category a (detected category name combined))

  -- `DestructiveOpDetector.analyze`, with `params` as `str` prints them; the details are not joined.
  unfoldable pub analyze : String → String → RiskAssessment
  unfolding analyze_loop
  analyze tool_name params =
      analyze_loop (lower tool_name) (append (lower tool_name) (append " " (lower params)))
        destructive_categories (record { risk_level = low; categories = []; details = [] })

  -- `is_destructive`
  unfoldable pub is_destructive : String → String → RiskLevel → Bool
  is_destructive tool_name params threshold =
      not (ltb (risk_order ((analyze tool_name params).risk_level)) (risk_order threshold))
