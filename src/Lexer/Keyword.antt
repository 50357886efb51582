-- ===== src/Lexer/Keyword.antt =====
-- `Keyword` of src/lexer.rs and its display names.
use Prim.Native.String.{String}

pub data Keyword : Type 0 where
  select from «where» «as» and or not «in» is null true false distinct top allowed : Keyword
  order by group having union all into join left right full inner outer on case when : Keyword
  then else end ref_presentation presentation count sum min max avg refs between : Keyword
  balance_and_turnovers dr_cr_turnovers records_with_ext_dimensions substring : Keyword
  string_length trim_all trim_left trim_right upper lower str_find str_replace round : Keyword
  int sqrt exp log log10 pow cos sin tan acos asin atan type value_type undefined : Keyword
  totals auto_order record_auto_number overall hierarchy only periods slice_last : Keyword
  slice_first balance turnovers date_time begin_of_period end_of_period date_add : Keyword
  date_diff year quarter month day_of_year day week week_day hour minute second : Keyword
  value uuid cast is_null_function like escape add drop index sets unique : Keyword

-- `Keyword::as_str`
unfoldable pub as_str : Keyword → String
as_str select = "SELECT"
as_str from = "FROM"
as_str «where» = "WHERE"
as_str «as» = "AS"
as_str and = "AND"
as_str or = "OR"
as_str not = "NOT"
as_str «in» = "IN"
as_str is = "IS"
as_str null = "NULL"
as_str true = "TRUE"
as_str false = "FALSE"
as_str distinct = "DISTINCT"
as_str top = "TOP"
as_str allowed = "ALLOWED"
as_str order = "ORDER"
as_str by = "BY"
as_str group = "GROUP"
as_str having = "HAVING"
as_str union = "UNION"
as_str all = "ALL"
as_str into = "INTO"
as_str join = "JOIN"
as_str left = "LEFT"
as_str right = "RIGHT"
as_str full = "FULL"
as_str inner = "INNER"
as_str outer = "OUTER"
as_str on = "ON"
as_str case = "CASE"
as_str when = "WHEN"
as_str then = "THEN"
as_str else = "ELSE"
as_str end = "END"
as_str ref_presentation = "REFPRESENTATION"
as_str presentation = "PRESENTATION"
as_str count = "COUNT"
as_str sum = "SUM"
as_str min = "MIN"
as_str max = "MAX"
as_str avg = "AVG"
as_str refs = "REFS"
as_str between = "BETWEEN"
as_str balance_and_turnovers = "BALANCEANDTURNOVERS"
as_str dr_cr_turnovers = "DRCRTURNOVERS"
as_str records_with_ext_dimensions = "RECORDSWITHEXTDIMENSIONS"
as_str substring = "SUBSTRING"
as_str string_length = "STRINGLENGTH"
as_str trim_all = "TRIMALL"
as_str trim_left = "TRIML"
as_str trim_right = "TRIMR"
as_str upper = "UPPER"
as_str lower = "LOWER"
as_str str_find = "STRFIND"
as_str str_replace = "STRREPLACE"
as_str round = "ROUND"
as_str int = "INT"
as_str sqrt = "SQRT"
as_str exp = "EXP"
as_str log = "LOG"
as_str log10 = "LOG10"
as_str pow = "POW"
as_str cos = "COS"
as_str sin = "SIN"
as_str tan = "TAN"
as_str acos = "ACOS"
as_str asin = "ASIN"
as_str atan = "ATAN"
as_str type = "TYPE"
as_str value_type = "VALUETYPE"
as_str undefined = "UNDEFINED"
as_str totals = "TOTALS"
as_str auto_order = "AUTOORDER"
as_str record_auto_number = "RECORDAUTONUMBER"
as_str overall = "OVERALL"
as_str hierarchy = "HIERARCHY"
as_str only = "ONLY"
as_str periods = "PERIODS"
as_str slice_last = "SLICELAST"
as_str slice_first = "SLICEFIRST"
as_str balance = "BALANCE"
as_str turnovers = "TURNOVERS"
as_str date_time = "DATETIME"
as_str begin_of_period = "BEGINOFPERIOD"
as_str end_of_period = "ENDOFPERIOD"
as_str date_add = "DATEADD"
as_str date_diff = "DATEDIFF"
as_str year = "YEAR"
as_str quarter = "QUARTER"
as_str month = "MONTH"
as_str day_of_year = "DAYOFYEAR"
as_str day = "DAY"
as_str week = "WEEK"
as_str week_day = "WEEKDAY"
as_str hour = "HOUR"
as_str minute = "MINUTE"
as_str second = "SECOND"
as_str value = "VALUE"
as_str uuid = "UUID"
as_str cast = "CAST"
as_str is_null_function = "ISNULL"
as_str like = "LIKE"
as_str escape = "ESCAPE"
as_str add = "ADD"
as_str drop = "DROP"
as_str index = "INDEX"
as_str sets = "SETS"
as_str unique = "UNIQUE"
