-- ===== src/Lexer/Keywords.antt =====
-- `KEYWORDS` of src/lexer.rs: each keyword with its Russian and its English spelling.
use Prim.Native.String.{String}
use mathlib.Core.List.{List, [], ◌∷◌}
use open_sdbl.Lexer.Keyword.{Keyword}

pub record Spelling : Type 0 where
  pub keyword : Keyword
  pub russian : String
  pub english : String

abbrev row : Keyword → String → String → Spelling
row keyword russian english = record { keyword = keyword; russian = russian; english = english }

abbrev pub keywords : List Spelling
keywords =
    row Keyword.select "ВЫБРАТЬ" "SELECT"
    ∷ row Keyword.from "ИЗ" "FROM"
    ∷ row Keyword.«where» "ГДЕ" "WHERE"
    ∷ row Keyword.«as» "КАК" "AS"
    ∷ row Keyword.and "И" "AND"
    ∷ row Keyword.or "ИЛИ" "OR"
    ∷ row Keyword.not "НЕ" "NOT"
    ∷ row Keyword.«in» "В" "IN"
    ∷ row Keyword.is "ЕСТЬ" "IS"
    ∷ row Keyword.null "NULL" "NULL"
    ∷ row Keyword.true "ИСТИНА" "TRUE"
    ∷ row Keyword.false "ЛОЖЬ" "FALSE"
    ∷ row Keyword.distinct "РАЗЛИЧНЫЕ" "DISTINCT"
    ∷ row Keyword.top "ПЕРВЫЕ" "TOP"
    ∷ row Keyword.allowed "РАЗРЕШЕННЫЕ" "ALLOWED"
    ∷ row Keyword.order "УПОРЯДОЧИТЬ" "ORDER"
    ∷ row Keyword.by "ПО" "BY"
    ∷ row Keyword.group "СГРУППИРОВАТЬ" "GROUP"
    ∷ row Keyword.having "ИМЕЮЩИЕ" "HAVING"
    ∷ row Keyword.union "ОБЪЕДИНИТЬ" "UNION"
    ∷ row Keyword.all "ВСЕ" "ALL"
    ∷ row Keyword.into "ПОМЕСТИТЬ" "INTO"
    ∷ row Keyword.join "СОЕДИНЕНИЕ" "JOIN"
    ∷ row Keyword.left "ЛЕВОЕ" "LEFT"
    ∷ row Keyword.right "ПРАВОЕ" "RIGHT"
    ∷ row Keyword.full "ПОЛНОЕ" "FULL"
    ∷ row Keyword.inner "ВНУТРЕННЕЕ" "INNER"
    ∷ row Keyword.outer "ВНЕШНЕЕ" "OUTER"
    ∷ row Keyword.on "ON" "ON"
    ∷ row Keyword.case "ВЫБОР" "CASE"
    ∷ row Keyword.when "КОГДА" "WHEN"
    ∷ row Keyword.then "ТОГДА" "THEN"
    ∷ row Keyword.else "ИНАЧЕ" "ELSE"
    ∷ row Keyword.end "КОНЕЦ" "END"
    ∷ row Keyword.ref_presentation "ПРЕДСТАВЛЕНИЕССЫЛКИ" "REFPRESENTATION"
    ∷ row Keyword.presentation "ПРЕДСТАВЛЕНИЕ" "PRESENTATION"
    ∷ row Keyword.count "КОЛИЧЕСТВО" "COUNT"
    ∷ row Keyword.sum "СУММА" "SUM"
    ∷ row Keyword.min "МИНИМУМ" "MIN"
    ∷ row Keyword.max "МАКСИМУМ" "MAX"
    ∷ row Keyword.avg "СРЕДНЕЕ" "AVG"
    ∷ row Keyword.refs "ССЫЛКА" "REFS"
    ∷ row Keyword.between "МЕЖДУ" "BETWEEN"
    ∷ row Keyword.balance_and_turnovers "ОСТАТКИИОБОРОТЫ" "BALANCEANDTURNOVERS"
    ∷ row Keyword.dr_cr_turnovers "ОБОРОТЫДТКТ" "DRCRTURNOVERS"
    ∷ row Keyword.records_with_ext_dimensions "ДВИЖЕНИЯССУБКОНТО" "RECORDSWITHEXTDIMENSIONS"
    ∷ row Keyword.substring "ПОДСТРОКА" "SUBSTRING"
    ∷ row Keyword.string_length "ДЛИНАСТРОКИ" "STRINGLENGTH"
    ∷ row Keyword.trim_all "СОКРЛП" "TRIMALL"
    ∷ row Keyword.trim_left "СОКРЛ" "TRIML"
    ∷ row Keyword.trim_right "СОКРП" "TRIMR"
    ∷ row Keyword.upper "ВРЕГ" "UPPER"
    ∷ row Keyword.lower "НРЕГ" "LOWER"
    ∷ row Keyword.str_find "СТРНАЙТИ" "STRFIND"
    ∷ row Keyword.str_replace "СТРЗАМЕНИТЬ" "STRREPLACE"
    ∷ row Keyword.round "ОКР" "ROUND"
    ∷ row Keyword.int "ЦЕЛ" "INT"
    ∷ row Keyword.sqrt "SQRT" "SQRT"
    ∷ row Keyword.exp "EXP" "EXP"
    ∷ row Keyword.log "LOG" "LOG"
    ∷ row Keyword.log10 "LOG10" "LOG10"
    ∷ row Keyword.pow "POW" "POW"
    ∷ row Keyword.cos "COS" "COS"
    ∷ row Keyword.sin "SIN" "SIN"
    ∷ row Keyword.tan "TAN" "TAN"
    ∷ row Keyword.acos "ACOS" "ACOS"
    ∷ row Keyword.asin "ASIN" "ASIN"
    ∷ row Keyword.atan "ATAN" "ATAN"
    ∷ row Keyword.type "ТИП" "TYPE"
    ∷ row Keyword.value_type "ТИПЗНАЧЕНИЯ" "VALUETYPE"
    ∷ row Keyword.undefined "НЕОПРЕДЕЛЕНО" "UNDEFINED"
    ∷ row Keyword.totals "ИТОГИ" "TOTALS"
    ∷ row Keyword.auto_order "АВТОУПОРЯДОЧИВАНИЕ" "AUTOORDER"
    ∷ row Keyword.record_auto_number "АВТОНОМЕРЗАПИСИ" "RECORDAUTONUMBER"
    ∷ row Keyword.overall "ОБЩИЕ" "OVERALL"
    ∷ row Keyword.hierarchy "ИЕРАРХИЯ" "HIERARCHY"
    ∷ row Keyword.only "ТОЛЬКО" "ONLY"
    ∷ row Keyword.periods "ПЕРИОДАМИ" "PERIODS"
    ∷ row Keyword.slice_last "СРЕЗПОСЛЕДНИХ" "SLICELAST"
    ∷ row Keyword.slice_first "СРЕЗПЕРВЫХ" "SLICEFIRST"
    ∷ row Keyword.balance "ОСТАТКИ" "BALANCE"
    ∷ row Keyword.turnovers "ОБОРОТЫ" "TURNOVERS"
    ∷ row Keyword.date_time "ДАТАВРЕМЯ" "DATETIME"
    ∷ row Keyword.begin_of_period "НАЧАЛОПЕРИОДА" "BEGINOFPERIOD"
    ∷ row Keyword.end_of_period "КОНЕЦПЕРИОДА" "ENDOFPERIOD"
    ∷ row Keyword.date_add "ДОБАВИТЬКДАТЕ" "DATEADD"
    ∷ row Keyword.date_diff "РАЗНОСТЬДАТ" "DATEDIFF"
    ∷ row Keyword.year "ГОД" "YEAR"
    ∷ row Keyword.quarter "КВАРТАЛ" "QUARTER"
    ∷ row Keyword.month "МЕСЯЦ" "MONTH"
    ∷ row Keyword.day_of_year "ДЕНЬГОДА" "DAYOFYEAR"
    ∷ row Keyword.day "ДЕНЬ" "DAY"
    ∷ row Keyword.week "НЕДЕЛЯ" "WEEK"
    ∷ row Keyword.week_day "ДЕНЬНЕДЕЛИ" "WEEKDAY"
    ∷ row Keyword.hour "ЧАС" "HOUR"
    ∷ row Keyword.minute "МИНУТА" "MINUTE"
    ∷ row Keyword.second "СЕКУНДА" "SECOND"
    ∷ row Keyword.value "ЗНАЧЕНИЕ" "VALUE"
    ∷ row Keyword.uuid "УНИКАЛЬНЫЙИДЕНТИФИКАТОР" "UUID"
    ∷ row Keyword.cast "ВЫРАЗИТЬ" "CAST"
    ∷ row Keyword.is_null_function "ЕСТЬNULL" "ISNULL"
    ∷ row Keyword.like "ПОДОБНО" "LIKE"
    ∷ row Keyword.escape "СПЕЦСИМВОЛ" "ESCAPE"
    ∷ row Keyword.add "ДОБАВИТЬ" "ADD"
    ∷ row Keyword.drop "УНИЧТОЖИТЬ" "DROP"
    ∷ row Keyword.index "ИНДЕКСИРОВАТЬ" "INDEX"
    ∷ row Keyword.sets "НАБОРАМ" "SETS"
    ∷ row Keyword.unique "УНИКАЛЬНО" "UNIQUE"
    ∷ []
