-- ===== src/Api/Templates/Listed.antt =====
-- Which templates the handlers of GET give to a caller.
use murano_temp.Base.{List}
