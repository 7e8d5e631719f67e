-- ===== src/I18n/Portuguese/Inbox.antt =====
-- web/lib/i18n/pt.ts: the Portuguese texts of the page of the temporary address.
use wgtemporary_email.Base.{String, [], ◌∷◌}
use wgtemporary_email.Base.Dict.{Dict}

abbrev pub pt_home : Dict String
pt_home =
    ("yourTempEmail", "Seu e-mail temporário")
    ∷ (
      "readyDesc",
      "Seu e-mail temporário está pronto. Ele será excluído automaticamente em {time}.",
    )
    ∷ ("loading", "Carregando...")
    ∷ ("copy", "Copiar")
    ∷ ("copied", "Copiado")
    ∷ ("newEmail", "Novo e-mail")
    ∷ ("expiresIn", "Expira em {time}")
    ∷ ("inbox", "Caixa de entrada")
    ∷ ("auto", "Auto")
    ∷ ("searchEmails", "Pesquisar e-mails...")
    ∷ ("clearSearch", "Limpar pesquisa")
    ∷ ("noEmailsYet", "Nenhum e-mail ainda")
    ∷ ("autoRefreshingEvery", "Atualização automática a cada {sec}s")
    ∷ ("noSubject", "(Sem assunto)")
    ∷ ("newBadge", "Novo")
    ∷ ("selectAnEmail", "Selecione um e-mail")
    ∷ ("viewContents", "Selecione um e-mail para ver o conteúdo")
    ∷ ("html", "HTML")
    ∷ ("plain", "Texto")
    ∷ ("from", "De:")
    ∷ ("to", "Para:")
    ∷ ("date", "Data:")
    ∷ ("dkimValid", "DKIM válido")
    ∷ ("dkimInvalid", "DKIM inválido")
    ∷ ("spf", "SPF: {v}")
    ∷ ("dmarc", "DMARC: {v}")
    ∷ ("attachmentsCount", "{n} anexo(s)")
    ∷ ("attachments", "Anexos")
    ∷ ("noContent", "Sem conteúdo")
    ∷ ("lastRefreshed", "Última atualização: {time} • Atualização automática ativada")
    ∷ ("footerText", "WGTemporaryEmail - Serviço de e-mail temporário de código aberto")
    ∷ ("dialogTitle", "Gerar novo e-mail")
    ∷ (
      "dialogDesc",
      "Crie um novo endereço de e-mail temporário. Deixe o nome de usuário em branco para um endereço aleatório.",
    )
    ∷ ("customNamePlaceholder", "nome-personalizado (opcional)")
    ∷ (
      "dialogHint",
      "Deixe em branco para um endereço aleatório ou digite um nome de usuário personalizado (3-64 caracteres, alfanumérico + . _ -)",
    )
    ∷ ("generateEmail", "Gerar e-mail")
    ∷ ("creating", "Criando...")
    ∷ (
      "usernameTaken",
      "Este nome de usuário já está em uso. Escolha outro ou deixe em branco para um endereço aleatório.",
    )
    ∷ ("failedToCreate", "Falha ao criar o endereço de e-mail. Tente novamente.")
    ∷ ("rateLimited", "Muitas requisições. O limite é por IP: aguarde cerca de um minuto.")
    ∷ ("failedToLoad", "Falha ao carregar o e-mail. Tente novamente.")
    ∷ ("failedToDelete", "Falha ao excluir o e-mail. Tente novamente.")
    ∷ ("deleteEmailConfirm", "Excluir este e-mail?")
    ∷ ("expiredNewAddress", "{old} expirou. Novo endereço: {new}")
    ∷ ("expiredNow", "Expirado - gerando um novo endereço...")
    ∷ []
