-- ===== src/Utils/Env/Reading.antt =====
-- What `GetEnvAsInt` makes of the text of a variable.
